-- ===== src/Tests/Fixtures.antt =====
-- Instances of the parameters for the tests: a byte order, and codecs for a few messages.
use sanzu.Prelude.{
  ℕ, ◌+◌, ◌*◌, ◌/◌, ◌%◌, ◌^◌, ◌≡◌, refl, List, [], ◌∷◌, none, some, length, arith, Bool, true,
  false, ◌<◌, ◌==◌, if◌then◌else◌,
}
use sanzu.Prelude.Bytes.{LittleEndian, LittleEndianLaws}
use sanzu.Messages.{Version}
use sanzu.Messages.Server.{ServerMsgOrErr, ServerAnswer, ServerOk}
use sanzu.Messages.Client.{ClientMsgOrErr, ClientAnswer, ClientOk}
use sanzu.Proto.Tunnel.{Message}
use sanzu.Proto.Events.{Wire}

abbrev pub eight_bytes : ℕ → List ℕ
eight_bytes n =
    n % 256
    ∷ n / 256 % 256
    ∷ n / 65536 % 256
    ∷ n / 16777216 % 256
    ∷ n / 4294967296 % 256
    ∷ n / 1099511627776 % 256
    ∷ n / 281474976710656 % 256
    ∷ n / 72057594037927936 % 256
    ∷ []

abbrev pub from_bytes : List ℕ → ℕ
from_bytes [] = 0
from_bytes (x ∷ xs) = x + 256 * from_bytes xs

abbrev pub little : LittleEndian
little = record {
  write_u64 = eight_bytes;
  read_u64 = from_bytes;
  write_u32 = λ n. n % 256 ∷ n / 256 % 256 ∷ n / 65536 % 256 ∷ n / 16777216 % 256 ∷ [];
}

read_eight : (n : ℕ) → n < 2 ^ 64 → from_bytes (eight_bytes n) ≡ n
read_eight n h = omega arith

pub little-laws : LittleEndianLaws little
little-laws = record { write_length = λ n. refl; read_write = read_eight }

-- Lists of bytes as they are.
abbrev pub raw : Message (List ℕ)
raw = record { encoded_len = λ m. length m; encode = λ m. m; decode = λ bytes. some bytes }

-- A codec that knows two messages of a type.
abbrev pub two : {M : Type 0} → (M → Bool) → M → M → Message M
two is_first a b = record {
  encoded_len = λ m. 1;
  encode = λ m. if is_first m then 1 ∷ [] else 2 ∷ [];
  decode = λ bytes. elim bytes [
    | [] ↦ none
    | x ∷ _ ↦ if x == 1 then some a else if x == 2 then some b else none
  ];
}

abbrev pub our_version : Version
our_version = record { version = "0.1.1" }

abbrev pub server_version : ServerMsgOrErr
server_version = record { msg = some (ServerAnswer.answer (some (ServerOk.version our_version))) }

abbrev pub server_refused : ServerMsgOrErr
server_refused = record { msg = some (ServerAnswer.refusal (record { errors = "no" ∷ [] })) }

abbrev pub client_version : ClientMsgOrErr
client_version = record { msg = some (ClientAnswer.answer (some (ClientOk.version our_version))) }

abbrev pub client_refused : ClientMsgOrErr
client_refused = record { msg = some (ClientAnswer.refusal (record { errors = "no" ∷ [] })) }

abbrev pub server_answers : ServerMsgOrErr → Bool
server_answers m = elim m.msg [ some (ServerAnswer.answer _) ↦ true | _ ↦ false ]

abbrev pub client_answers : ClientMsgOrErr → Bool
client_answers m = elim m.msg [ some (ClientAnswer.answer _) ↦ true | _ ↦ false ]

abbrev pub wire : Wire
wire = record {
  order = little;
  server_codec = two server_answers server_version server_refused;
  client_codec = two client_answers client_version client_refused;
  error_codec = record { encoded_len = λ m. 0; encode = λ m. []; decode = λ bytes. none };
}
