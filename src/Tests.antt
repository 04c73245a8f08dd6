-- ===== src/Tests.antt =====
-- Concrete inputs for the theorems about the program, and the theorems at these inputs: a wire format
-- that reads back what it writes, and files that may all be read and written.
mod Routing
mod Text
mod Files
mod Memory
mod Managers
mod Delivery
mod Tags
mod Threads
mod Runs
mod Clients
mod Database
use bitmq.Base.{
  ℕ, zero, suc, Bool, true, false, List, [], ◌∷◌, ◌++◌, Bytes, codes, length, take, drop,
}
use bitmq.Dict.{Dict}
use bitmq.File.{Fs}
use bitmq.Message.{
  DeliveryMode, unknow_mode, undurable, durable, BasicProperties, Payload, Message, Wire,
  new_message,
}
use bitmq.MessageFile.{Mapper}
use bitmq.QueueMessage.{QueueMessage}

-- A text behind its length.
abbrev sized : Bytes → Bytes
sized s = length s ∷ s

abbrev head_of : Bytes → Bytes
head_of [] = []
head_of (n ∷ s) = take n s

abbrev tail_of : Bytes → Bytes
tail_of [] = []
tail_of (n ∷ s) = drop n s

abbrev mode_text : DeliveryMode → Bytes
mode_text unknow_mode = []
mode_text undurable = 1 ∷ []
mode_text durable = 1 ∷ 1 ∷ []

abbrev text_mode : Bytes → DeliveryMode
text_mode [] = unknow_mode
text_mode (_ ∷ []) = undurable
text_mode (_ ∷ _ ∷ s) = durable

abbrev pub plain_wire : Wire
plain_wire = record {
  serialize = λ p.
      sized p.valid
      ++ (sized p.properties.id
          ++ (sized (mode_text p.properties.delivery_mode)
              ++ (sized p.properties.routing_key ++ p.body)));
  parse = λ s.
      let s1 = tail_of s in
      let s2 = tail_of s1 in
      let s3 = tail_of s2 in
      record {
        properties = record {
          id = head_of s1;
          delivery_mode = text_mode (head_of s2);
          routing_key = head_of s3;
        };
        body = tail_of s3;
        valid = head_of s;
      };
}

abbrev pub payload : Bytes → Bytes → Payload
payload id valid = record {
  properties = record { id = id; delivery_mode = durable; routing_key = codes "k" };
  body = codes "hi";
  valid = valid;
}

abbrev pub first : Payload
first = payload (codes "a") (codes "1")

abbrev pub gone : Payload
gone = payload (codes "b") (codes "0")

abbrev pub last : Payload
last = payload (codes "c") (codes "1")

abbrev pub mapper : Mapper
mapper = record { qname = codes "q"; datafile = codes "q.mqd"; tmpfile = codes "q.mqd.tmp" }

abbrev pub files_with : Bytes → Fs
files_with content = record {
  files = (codes "q.mqd", content) ∷ [];
  dirs = [];
  readable = λ path. true;
  writable = λ path. true;
}

abbrev pub empty_queue : QueueMessage
empty_queue = record {
  mapper = mapper;
  valid_count = 0;
  total_count = 0;
  msgs = [];
  durable_msgs = [];
  waitack_msgs = [];
  heap = λ p. new_message;
  next = 0;
}
