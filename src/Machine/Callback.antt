-- ===== src/Machine/Callback.antt =====
-- `transcode_callback` of arm/api/v1/jobs.py: what the external transcoder reports.
pub mod Tracks
use automatic_ripping_machin.Common.{
  any, ◌==◌, if◌then◌else◌, str_eq, is_empty, cat, show, ℕ, ◌+◌, ◌-◌, ◌*◌, ◌/◌, ◌%◌, ◌^◌, ◌≤◌, ◌<◌,
  String, ◌≡◌, ◌∙◌, ◌≡⟨◌⟩◌, ◌∎, ◌≢◌, ◌↔◌, ◌⊎◌, Bool, true, false, ◌&&◌, ◌||◌, Option, none, some,
  List, [], ◌∷◌, ◌++◌,
}
use automatic_ripping_machin.Machine.{
  success, failure, transcode_active, transcoded, transcode_failed, Track, Job, Database,
  has_job_id,
}
use automatic_ripping_machin.Machine.Handlers.{
  Response, ok, refused, update_job, write_job, notify, with_job,
}

-- `JobStatus` of the contracts; `other` stands for the members that this endpoint refuses.
pub data JobStatus : Type 0 where
  transcoding completed partial failed other : JobStatus

pub record TrackResult : Type 0 where
  pub track_number : String
  pub status : JobStatus
  pub error : Option String

-- A body that `TranscodeCallbackPayload` accepts.
pub record Callback : Type 0 where
  pub status : JobStatus
  pub error : Option String
  pub track_results : List TrackResult

-- `x or d`, for a text.
abbrev pub text_or : Option String → String → String
text_or none d = d
text_or (some e) d = if is_empty e then d else e

abbrev pub numbered : String → Track → Bool
numbered n t = str_eq t.track_number n

-- `track_map` keeps the last of the tracks with one number.
unfoldable pub update_track : String → (Track → Track) → List Track → List Track
update_track n f [] = []
update_track n f (t ∷ ts) =
    let rest = update_track n f ts in
    if any (numbered n) ts then t ∷ rest else if numbered n t then f t ∷ ts else t ∷ ts

abbrev pub set_result : TrackResult → Track → Track
set_result r t = elim r.status [
  | completed ↦ record t { status = transcoded }
  | failed ↦ record t {
    status = transcode_failed;
    error = if is_empty (text_or r.error "") then t.error else r.error;
  }
  | _ ↦ t
]

unfoldable pub set_results : List TrackResult → List Track → List Track
unfolding update_track
set_results [] ts = ts
set_results (r ∷ rs) ts = set_results rs (update_track r.track_number (set_result r) ts)

abbrev pub message_of : Job → Callback → String × String
message_of j c =
    let job = show j.job_id in
    elim c.status [
      | completed ↦ (
        cat ("Job: " ∷ job ∷ " transcode complete" ∷ []),
        cat ("'" ∷ j.title ∷ "' transcoding finished successfully" ∷ []),
      )
      | partial ↦ (
        cat ("Job: " ∷ job ∷ " transcode partial" ∷ []),
        cat (
            "'"
            ∷ j.title
            ∷ "' transcoding completed with errors: "
            ∷ text_or c.error "Some tracks failed to transcode"
            ∷ []),
      )
      | _ ↦ (
        cat ("Job: " ∷ job ∷ " transcode failed" ∷ []),
        cat ("'" ∷ j.title ∷ "' transcoding failed: " ∷ text_or c.error "Transcode failed" ∷ []),
      )
    ]

abbrev pub set_outcome : Callback → Job → Job
set_outcome c j = elim c.status [
  | transcoding ↦ record j { status = transcode_active }
  | completed ↦ record j { status = success }
  | partial ↦ record j {
    status = success;
    errors = some (text_or c.error "Some tracks failed to transcode");
  }
  | failed ↦ record j { status = failure; errors = some (text_or c.error "Transcode failed") }
  | other ↦ j
]

abbrev pub receive : Callback → Job → Job
receive c j = record (set_outcome c j) { tracks = set_results c.track_results j.tracks }

abbrev pub is_other : JobStatus → Bool
is_other other = true
is_other _ = false

abbrev pub is_informational : JobStatus → Bool
is_informational transcoding = true
is_informational _ = false

abbrev pub receive_valid : ℕ → Callback → Job → Database → Database × Response
receive_valid i c j s = if is_other c.status then (s, refused 422) else (
  write_job i (receive c)
      (if is_informational c.status then s else notify (message_of j c).0 (message_of j c).1 s),
  ok,
)

abbrev pub receive_body : ℕ → Option Callback → Job → Database → Database × Response
receive_body i none j s = (s, refused 422)
receive_body i (some c) j s = receive_valid i c j s

-- `body` is `none` when the model refuses it.
unfoldable pub transcode_callback : ℕ → Option Callback → Database → Database × Response
unfolding update_job set_results
transcode_callback i body s = with_job i (λ j. receive_body i body j s) s
