-- ===== src/Samples/Messages.antt =====
-- A message, and an idle parser with memory, for the tests.
use compile_service.Common.{◌+◌, refl, [], ◌∷◌, replicate, length-replicate, arith}
use compile_service.Message.{Message}
use compile_service.Message.Wire.{IsHeader}
use compile_service.MsgParser.{MsgParser, init_state}
use compile_service.MsgParser.Spec.{Repr}
use compile_service.MsgParser.Progress.{Grants, init_state-Repr}
use compile_service.MsgParser.Pieces.{IsMessage}
use compile_service.Samples.{zeros, parser}

pub zeros-Grants : Grants zeros
unfolding zeros
zeros-Grants n h = (replicate (12 + n) 0, refl, length-replicate (12 + n) 0)

abbrev pub idle : MsgParser
idle = init_state parser

pub idle-Repr : Repr idle []
idle-Repr = init_state-Repr parser refl

abbrev pub hello : Message
hello = record {
  head = record { type = 1; cmd = 2; index = 0; total = 1; length = 2 };
  payload = 0x68 ∷ 0x69 ∷ [];
}

pub hello_fields : IsHeader hello.head
hello_fields = record {
  type_fits = omega arith;
  cmd_fits = omega arith;
  index_fits = omega arith;
  total_fits = omega arith;
  length_fits = omega arith;
}

pub hello-IsMessage : IsMessage hello
hello-IsMessage = record { fields = hello_fields; counted = refl; modest = omega arith }
