-- ===== src/Tests/Codec.antt =====
-- A bincode for some commands and for the snapshots of an engine without entries.
use spatiad.Base.{ℕ, zero, suc, ◌≡◌, refl, sym, [], ◌∷◌, Result, ok, err, ok_injective, arith}
use spatiad.Base.Text.{Text, codes}
use spatiad.Base.HashMap.{HashMap}
use spatiad.Base.HashSet.{HashSet}
use spatiad.Types.{DriverSnapshot, JobRequest, OfferRecord}
use spatiad.Storage.{Command, EngineSnapshot}
use spatiad.Storage.Tables.{Blob, Bincode, UuidText}
use spatiad.Storage.Postgres.{Timestamptz}
use spatiad.Storage.Tables.Sound.{RoundTrips}

abbrev encode_command : Command ℕ → Result Blob Text
encode_command (Command.cancel_job job_id) = ok (0 ∷ job_id ∷ [])
encode_command (Command.remove_driver driver_id) = ok (1 ∷ driver_id ∷ [])
encode_command _ = err (codes "unsupported")

abbrev decode_command : Blob → Result (Command ℕ) Text
decode_command (zero ∷ id ∷ []) = ok (Command.cancel_job id)
decode_command (suc _ ∷ id ∷ []) = ok (Command.remove_driver id)
decode_command _ = err (codes "corrupt")

abbrev encode_parts :
    ℕ
    → HashMap ℕ (DriverSnapshot ℕ)
    → HashMap ℕ (JobRequest ℕ)
    → HashMap ℕ OfferRecord
    → HashSet ℕ
    → HashMap ℕ ℕ
    → ℕ
    → Result Blob Text
encode_parts h3_resolution [] [] [] [] [] n = ok (h3_resolution ∷ n ∷ [])
encode_parts _ _ _ _ _ _ _ = err (codes "unsupported")

abbrev decode_snapshot : Blob → Result (EngineSnapshot ℕ) Text
decode_snapshot (h3_resolution ∷ n ∷ []) = ok (record {
  h3_resolution = h3_resolution;
  drivers = [];
  jobs = [];
  offers = [];
  cancelled_jobs = [];
  job_event_sequences = [];
  wal_sequence = n;
})
decode_snapshot _ = err (codes "corrupt")

instance abbrev pub small_codec : Bincode ℕ
small_codec = record {
  serialize_command = encode_command;
  deserialize_command = decode_command;
  serialize_snapshot = λ x.
      encode_parts x.h3_resolution x.drivers x.jobs x.offers x.cancelled_jobs x.job_event_sequences
        x.wal_sequence;
  deserialize_snapshot = decode_snapshot;
}

command_back :
    (cmd : Command ℕ) (blob : Blob) → encode_command cmd ≡ ok blob → decode_command blob ≡ ok cmd
command_back (Command.cancel_job n) blob p = rw (sym (ok_injective _ blob p)) refl
command_back (Command.remove_driver n) blob p = rw (sym (ok_injective _ blob p)) refl
command_back (Command.upsert_driver_location _ _ _ _ _) blob p = ground (arith, p)
command_back (Command.register_job _) blob p = ground (arith, p)
command_back (Command.create_offer _) blob p = ground (arith, p)
command_back (Command.accept_offer _ _) blob p = ground (arith, p)
command_back (Command.reject_offer _ _) blob p = ground (arith, p)
command_back (Command.mark_offer_expired _) blob p = ground (arith, p)
command_back (Command.mark_offer_cancelled _) blob p = ground (arith, p)
command_back (Command.record_webhook_delivery_failed _ _) blob p = ground (arith, p)

parts_back :
    (h3_resolution : ℕ) (drivers : HashMap ℕ (DriverSnapshot ℕ)) (jobs : HashMap ℕ (JobRequest ℕ))
    (offers : HashMap ℕ OfferRecord) (cancelled_jobs : HashSet ℕ)
    (job_event_sequences : HashMap ℕ ℕ) (n : ℕ) (blob : Blob)
    → encode_parts h3_resolution drivers jobs offers cancelled_jobs job_event_sequences n ≡ ok blob
    → decode_snapshot blob
      ≡ ok (record {
        h3_resolution = h3_resolution;
        drivers = drivers;
        jobs = jobs;
        offers = offers;
        cancelled_jobs = cancelled_jobs;
        job_event_sequences = job_event_sequences;
        wal_sequence = n;
      })
parts_back h [] [] [] [] [] n blob p = rw (sym (ok_injective _ blob p)) refl
parts_back h (_ ∷ _) j o c q n blob p = ground (arith, p)
parts_back h [] (_ ∷ _) o c q n blob p = ground (arith, p)
parts_back h [] [] (_ ∷ _) c q n blob p = ground (arith, p)
parts_back h [] [] [] (_ ∷ _) q n blob p = ground (arith, p)
parts_back h [] [] [] [] (_ ∷ _) n blob p = ground (arith, p)

snapshot_back :
    (x : EngineSnapshot ℕ) (blob : Blob)
    → small_codec.serialize_snapshot x ≡ ok blob
    → decode_snapshot blob ≡ ok x
snapshot_back x blob p =
    parts_back x.h3_resolution x.drivers x.jobs x.offers x.cancelled_jobs x.job_event_sequences
      x.wal_sequence blob p

pub small_codec-RoundTrips : RoundTrips small_codec
small_codec-RoundTrips = record { command = command_back; snapshot = snapshot_back }

instance abbrev pub one_number : UuidText
one_number = record { uuid_text = λ n. n ∷ [] }

-- Every instant is kept.
instance abbrev pub exact : Timestamptz
exact = record { kept = λ n. n }
