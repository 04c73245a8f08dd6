-- ===== src/Tests/Runs.antt =====
-- A run of a queue: two messages are put in, the first one is handed out and acknowledged.
use bitmq.Base.{
  ◌≡◌, ◌≢◌, refl, true, some, List, [], ◌∷◌, codes, bytes_eq, bytes_eq_iff, false, length, arith,
  bytes_key,
}
use bitmq.Dict.{find, emplace, assign, erase}
use bitmq.File.{Fs, size, exists, write, write_open, write_content, create_file}
use bitmq.File.Open.{IsOpen}
use bitmq.MessageFile
use bitmq.MessageFile.Compact.{HasRoom}
use bitmq.QueueMessage.{
  recovery, insert, front, remove, remove_durable, gc, gc_check, settle_all, settle, adopt,
  properties_for,
}
use bitmq.QueueMessage.Fifo.{contents}
use bitmq.QueueMessage.Runs.{
  Call, puts, takes, acknowledges, call, run, all_unacked, AreSound, empty_over, run-recovery,
}
use bitmq.Tests.{plain_wire, first, last, mapper, files_with}

abbrev blank_disk : Fs
blank_disk = files_with []

blank-IsOpen : IsOpen mapper.datafile [] blank_disk
unfolding find bytes_eq
blank-IsOpen = record { found = refl; may_read = refl; may_write = refl }

blank-HasRoom : HasRoom mapper blank_disk
blank-HasRoom = record {
  apart = λ h. cc;
  may_read = refl;
  may_write = refl;
  no_dir = refl;
  no_data_dir = refl;
}

abbrev calls : List Call
calls =
    puts (some first.properties) (codes "hi") (codes "u") true
    ∷ (puts (some last.properties) (codes "hi") (codes "u") true
        ∷ (takes ∷ (acknowledges (codes "a") ∷ [])))

ids_apart : codes "a" ≢ codes "c"
unfolding bytes_eq
ids_apart = λ e. let t : false ≡ true = (bytes_eq_iff (codes "a") (codes "c")).1 e in cc

left_over : all_unacked plain_wire calls (empty_over mapper) blank_disk [] ≡ last ∷ []
unfolding all_unacked call insert front remove remove_durable gc gc_check settle_all settle adopt
    properties_for find emplace assign erase bytes_eq size exists write write_open write_content
    create_file MessageFile.insert MessageFile.insert_into MessageFile.remove
left_over = refl

calls-AreSound : AreSound plain_wire calls (empty_over mapper) blank_disk
unfolding AreSound call insert front remove remove_durable gc gc_check settle_all settle adopt
    properties_for find emplace assign erase bytes_eq size exists write write_open write_content
    create_file MessageFile.insert MessageFile.insert_into MessageFile.remove
calls-AreSound = (
  record {
    unused = record { not_managed = refl; not_acked = refl; not_queued = tt };
    storable = record { reads_back = refl; fits = omega arith };
    markable = record {
      storable = record { reads_back = refl; fits = omega arith };
      same_size = refl;
    };
    fits = omega arith;
  },
  (
    record {
      unused = record { not_managed = refl; not_acked = refl; not_queued = (ids_apart, tt) };
      storable = record { reads_back = refl; fits = omega arith };
      markable = record {
        storable = record { reads_back = refl; fits = omega arith };
        same_size = refl;
      };
      fits = omega arith;
    },
    (tt, (tt, tt)),
  ),
)

run-recovery_example :
    let (q, fs') = run plain_wire calls (empty_over mapper) blank_disk in
    let r = recovery plain_wire (empty_over q.mapper) fs' in
    let ds = all_unacked plain_wire calls (empty_over mapper) blank_disk [] in
    (contents r.0 ≡ ds) × (r.0.total_count ≡ length ds) × (r.0.valid_count ≡ length ds)
run-recovery_example =
    run-recovery plain_wire mapper calls blank_disk blank-IsOpen blank-HasRoom calls-AreSound
