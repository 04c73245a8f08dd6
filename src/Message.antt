-- ===== src/Message.antt =====
-- mqcommon/mq_msg.proto: the messages. The wire format is protobuf's, a parameter: `serialize` stands
-- for `SerializeAsString`, `parse` for `ParseFromString`, whose result the program does not look at.
use bitmq.Base.{ℕ, ◌+◌, ◌*◌, ◌/◌, ◌%◌, ◌^◌, [], ◌∷◌, Bytes}

pub data DeliveryMode : Type 0 where
  unknow_mode undurable durable : DeliveryMode

pub record BasicProperties : Type 0 where
  pub id : Bytes
  pub delivery_mode : DeliveryMode
  pub routing_key : Bytes

pub record Payload : Type 0 where
  pub properties : BasicProperties
  pub body : Bytes
  pub valid : Bytes

-- `offset` and `length` are `uint32`.
pub record Message : Type 0 where
  pub payload : Payload
  pub offset : ℕ
  pub length : ℕ

-- The message that the generated constructor makes.
abbrev pub no_properties : BasicProperties
no_properties = record { id = []; delivery_mode = unknow_mode; routing_key = [] }

abbrev pub new_message : Message
new_message = record {
  payload = record { properties = no_properties; body = []; valid = [] };
  offset = 0;
  length = 0;
}

abbrev pub uint32 : ℕ → ℕ
uint32 n = n % 2 ^ 32

abbrev pub size_mod : ℕ
size_mod = 2 ^ 64

-- `set_valid(v)`
abbrev pub set_valid : Bytes → Payload → Payload
set_valid v p = record p { valid = v }

pub record Wire : Type 0 where
  pub serialize : Payload → Bytes
  pub parse : Bytes → Payload

-- The eight bytes of a `size_t` in memory, the lowest first.
abbrev pub size_bytes : ℕ → Bytes
size_bytes n =
    n % 256
    ∷ n / 2 ^ 8 % 256
    ∷ n / 2 ^ 16 % 256
    ∷ n / 2 ^ 24 % 256
    ∷ n / 2 ^ 32 % 256
    ∷ n / 2 ^ 40 % 256
    ∷ n / 2 ^ 48 % 256
    ∷ n / 2 ^ 56 % 256
    ∷ []

-- The number that bytes in memory stand for.
abbrev pub read_size : Bytes → ℕ
read_size [] = 0
read_size (x ∷ s) = x + 256 * read_size s
