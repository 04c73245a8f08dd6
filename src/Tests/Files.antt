-- ===== src/Tests/Files.antt =====
-- The file of a queue.
use bitmq.Base.{◌+◌, ◌<◌, ◌^◌, ◌≡◌, ◌↔◌, refl, List, [], ◌∷◌, All, bytes_eq, length, arith}
use bitmq.Dict.{find}
use bitmq.File.{Fs}
use bitmq.File.Open.{IsOpen}
use bitmq.Message.{Message, Payload}
use bitmq.MessageFile.{insert, gc}
use bitmq.MessageFile.Layout.{image, IsStorable, live, fresh}
use bitmq.MessageFile.Update.{place, insert-offset}
use bitmq.MessageFile.Compact.{HasRoom, placed, gc-image}
use bitmq.Tests.{plain_wire, first, gone, last, mapper, files_with}

abbrev pub three : List Payload
three = first ∷ gone ∷ last ∷ []

abbrev pub disk : Fs
disk = files_with (image plain_wire three)

pub disk-IsOpen : IsOpen mapper.datafile (image plain_wire three) disk
unfolding find bytes_eq
disk-IsOpen = record { found = refl; may_read = refl; may_write = refl }

pub disk-HasRoom : HasRoom mapper disk
disk-HasRoom = record {
  apart = λ h. cc;
  may_read = refl;
  may_write = refl;
  no_dir = refl;
  no_data_dir = refl;
}

pub payload-IsStorable :
    IsStorable plain_wire first × IsStorable plain_wire gone × IsStorable plain_wire last
payload-IsStorable = (
  record { reads_back = refl; fits = omega arith },
  record { reads_back = refl; fits = omega arith },
  record { reads_back = refl; fits = omega arith },
)

pub three-IsStorable : All (IsStorable plain_wire) three
three-IsStorable = let (a, b, c) = payload-IsStorable in (a, (b, (c, tt)))

abbrev pub last_message : Message
last_message = place plain_wire (length (image plain_wire (first ∷ gone ∷ []))) (fresh last)

gc-image_example :
    (fs' : Fs) × (gc plain_wire mapper disk ≡ (placed plain_wire 0 (live three), fs'))
    × IsOpen mapper.datafile (image plain_wire (live three)) fs'
gc-image_example = gc-image plain_wire mapper three disk disk-IsOpen disk-HasRoom three-IsStorable

insert-offset_example :
    let placed = (insert plain_wire mapper (fresh last) disk).1 in
    (placed.offset < 2 ^ 32)
    × (placed.length < 2 ^ 32)
    × ((placed.offset ≡ length (image plain_wire three) + 8)
        ↔ (length (image plain_wire three) + 8 < 2 ^ 32))
    × ((placed.length ≡ length (plain_wire.serialize last))
        ↔ (length (plain_wire.serialize last) < 2 ^ 32))
insert-offset_example = insert-offset plain_wire mapper (fresh last) three disk disk-IsOpen
