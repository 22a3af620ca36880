-- ===== src/Word.antt =====
-- xrbase/trieword: a tree of words, and the filter that finds and masks them in a text.
pub mod Tree
pub mod Filter
