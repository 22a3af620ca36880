-- ===== src/Net/Recv/Tests.antt =====
-- The theorems on receiving at concrete inputs, over a buffer that is a list of bytes.
use libev_test.Base.{
  ℕ, ◌+◌, ◌≡◌, refl, arith, true, false, List, [], ◌∷◌, ◌++◌, map, length, replicate, take, drop,
}
use libev_test.Net.Message.{encode_head, head_flag_base}
use libev_test.Text.Bytes.{to_bytes}
use libev_test.Net.Message.Head.{message}
use libev_test.Net.Recv.{EvBuffer, NetConn, Round, ok, Counters, io_recv_msg_x}
use libev_test.Net.Recv.Total.{Receives, io_recv_msg_x-Receives}
use libev_test.Net.Recv.Stream.{Packets, Delivers, no_head, io_recv_msg_x-Delivers}
use libev_test.Net.Recv.Limit.{recvs, recvs-Late}

abbrev list_buffer : EvBuffer
list_buffer = record {
  Buf = List ℕ;
  contents = λ b. b;
  get_length = λ b. length b;
  copy_out = λ b n. take n b;
  read = λ b n. (take n b, drop n b);
  get_length_lem = λ b. refl;
  copy_out_lem = λ b n. refl;
  read_lem = λ b n. refl;
  contents-read = λ b n. refl;
}

abbrev sent : Packets
sent =
    (
      record { size = 16; seq_id = 1; flag = head_flag_base; mod_id = 1; proto_id = 2; code = 0 },
      8 ∷ 9 ∷ [],
    )
    ∷ (
      record { size = 14; seq_id = 2; flag = head_flag_base; mod_id = 1; proto_id = 3; code = 0 },
      [],
    )
    ∷ []

abbrev quiet : Counters
quiet = record { tm_last = 100; sec_recvs = 0; sec_recv_limit = 0; all_recv = 0 }

abbrev conn : NetConn list_buffer
conn = record {
  conn_id = 4;
  thread_id = 1;
  counters = quiet;
  parse_code = ok;
  has_buffer = true;
  input =
      message
        (record {
          size = 16;
          seq_id = 1;
          flag = head_flag_base;
          mod_id = 1;
          proto_id = 2;
          code = 0;
        })
        (8 ∷ 9 ∷ [])
      ++ (message
            (record {
              size = 14;
              seq_id = 2;
              flag = head_flag_base;
              mod_id = 1;
              proto_id = 3;
              code = 0;
            })
            []
          ++ (16 ∷ 0 ∷ []));
}

abbrev fine : ℕ → Round
fine i = record { now = 100 + i; allocated = true; pushed = true }

io_recv_msg_x-Receives_example : Receives list_buffer conn (io_recv_msg_x list_buffer 40 fine conn)
unfolding encode_head to_bytes
io_recv_msg_x-Receives_example = io_recv_msg_x-Receives list_buffer 40 fine conn refl (omega arith)

io_recv_msg_x-Delivers_example :
    Delivers list_buffer sent (16 ∷ 0 ∷ []) (io_recv_msg_x list_buffer 3 fine conn)
unfolding encode_head to_bytes
io_recv_msg_x-Delivers_example =
    io_recv_msg_x-Delivers list_buffer 3 fine conn sent (16 ∷ 0 ∷ []) refl
      (λ i. record { can_alloc = refl; can_push = refl })
      (record { no_error = refl; no_limit = refl }) (omega arith) (no_head (omega arith)) refl
      (omega arith)

-- A limit of three messages a second.
abbrev limited : Counters
limited = record { tm_last = 100; sec_recvs = 1; sec_recv_limit = 3; all_recv = 9 }

recvs-Late_example :
    recvs (replicate 4 100 ++ 101 ∷ 102 ∷ []) limited
    ≡ replicate 4 true ++ map {A = ℕ} (λ _. false) (101 ∷ 102 ∷ [])
recvs-Late_example =
    recvs-Late 4 (101 ∷ 102 ∷ []) limited (omega arith) (omega arith) (omega arith) (omega arith)
