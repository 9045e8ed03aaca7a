-- ===== src/Export/Ends.antt =====
-- How the progress stream ends (backend/internal/export/sse.go).
use check.Common.{
  ℕ, suc, ◌≡◌, refl, String, Bool, true, false, Option, List, [], ◌∷◌, any, if◌then◌else◌,
  Bool-cases, inl, inr, Result, ok, err,
}
use check.Export.Defs.{ExportErr, Job, is_terminal}
use check.Export.Stream.{
  Event, done, heartbeat, progress_of, progress_changed, stream_ticks, stream_job_events,
}

abbrev pub is_done : Event → Bool
is_done (done e) = true
is_done _ = false

abbrev pub dones : List Event → ℕ
dones [] = 0
dones (e ∷ events) = let rest = dones events in if is_done e then suc rest else rest

abbrev is_last : List Event → Bool
is_last [] = true
is_last (e ∷ events) = false

-- Whether the last event is a `done`.
abbrev pub closes : List Event → Bool
closes [] = false
closes (e ∷ events) = let later = closes events in if is_last events then is_done e else later

-- A read that settles the stream: of no job, or of one that is over.
abbrev pub settles : Result ExportErr Job → Bool
settles (err e) = true
settles (ok job) = is_terminal job.status

closes-cons :
    (e : Event) (events : List Event) → is_done e ≡ false → closes (e ∷ events) ≡ closes events
closes-cons e [] h = h
closes-cons e (x ∷ events) h = refl

module _ (sign : String → String → Option String) where
  stream_ticks-done :
      (last : Job) (reads : List (Result ExportErr Job))
      → let events = stream_ticks sign last reads in
        (dones events ≡ (if any settles reads then 1 else 0)) × (closes events ≡ any settles reads)
  unfolding stream_ticks
  stream_ticks-done last [] = (refl, refl)
  stream_ticks-done last (err e ∷ reads) = (refl, refl)
  stream_ticks-done last (ok job ∷ reads) = elim (Bool-cases (progress_changed last job)) [
    | inl c ↦ elim (Bool-cases (is_terminal job.status)) [
      | inl t ↦ rw (c, t) (refl, refl)
      | inr t ↦
          let (count, last_one) = stream_ticks-done job reads in
          rw (c, t, closes-cons (progress_of job) (stream_ticks sign job reads) refl)
            (count, last_one)
    ]
    | inr c ↦ elim (Bool-cases (is_terminal job.status)) [
      | inl t ↦ rw (c, t) (refl, refl)
      | inr t ↦
          let (count, last_one) = stream_ticks-done last reads in
          rw (c, t, closes-cons heartbeat (stream_ticks sign last reads) refl) (count, last_one)
    ]
  ]

  -- The stream has one `done` event where some read, the first or that of a tick before the client leaves,
  -- is of a job that is over or fails, and none otherwise; the `done` event is the last one.
  pub stream_job_events-done :
      (first : Result ExportErr Job) (reads : List (Result ExportErr Job))
      → let events = stream_job_events sign first reads in
        (dones events ≡ (if any settles (first ∷ reads) then 1 else 0))
        × (closes events ≡ any settles (first ∷ reads))
  unfolding stream_job_events
  stream_job_events-done (err e) reads = (refl, refl)
  stream_job_events-done (ok job) reads = elim (Bool-cases (is_terminal job.status)) [
    | inl t ↦ rw t (refl, refl)
    | inr t ↦
        let (count, last_one) = stream_ticks-done job reads in
        rw (t, closes-cons (progress_of job) (stream_ticks sign job reads) refl) (count, last_one)
  ]
