-- ===== src/TcpClient/Tests.antt =====
-- A connection at concrete inputs.
use compile_service.Common.{
  ◌∷◌, ℕ, ◌≤◌, ◌≡◌, refl, true, false, List, [], ◌++◌, some, take, length, ok, arith, ◌⊎◌,
}
use compile_service.MsgParser.Pieces.{wire}
use compile_service.MsgParser.Spec.{Repr}
use compile_service.Samples.{open_line, client, script, zeros}
use compile_service.Samples.Connection.{open_line-IsWhole, script-IsSteady}
use compile_service.TcpClient.RoundTrip.{wires, send_all, recv_all, send_all-recv_all}
use compile_service.Samples.Messages.{hello, hello_fields, idle, idle-Repr, zeros-Grants}
use compile_service.TcpClient.{Client, send_msg}
use compile_service.TcpClient.Messages.{IsObject, send_msg_lem}

hello-IsObject : IsObject hello
hello-IsObject = record { head_fits = hello_fields; whole = refl; int_size = omega arith }

send_msg_lem_example :
    ((w' : List ℕ) × (send_msg open_line [] (some client) (some hello) ≡ ok (false, some hello, w'))
      × (w' ≡ []))
    ⊎ ((k : ℕ) × (w' : List ℕ) × (send_msg open_line [] (some client) (some hello)
          ≡ ok (true, some hello, w'))
        × (open_line.send [] (wire hello) ≡ (some k, w'))
        × (k ≤ length (wire hello))
        × (w' ≡ [] ++ take k (wire hello)))
send_msg_lem_example = send_msg_lem open_line [] client hello hello-IsObject

send_all-recv_all_example :
    (w' : List ℕ) × (d' : Client) × (send_all open_line [] client (hello ∷ hello ∷ []) ≡ ok w')
    × (w' ≡ [] ++ wires (hello ∷ hello ∷ []))
    × (recv_all script zeros 2 (record client { parser = idle }) (some (wires (hello ∷ hello ∷ [])))
        ≡ ok (hello ∷ hello ∷ [], d'))
    × Repr d'.parser []
send_all-recv_all_example =
    send_all-recv_all open_line script zeros (hello ∷ hello ∷ []) [] (wires (hello ∷ hello ∷ []))
      client (record client { parser = idle }) open_line-IsWhole script-IsSteady zeros-Grants
      (hello-IsObject, (hello-IsObject, tt)) idle-Repr refl
