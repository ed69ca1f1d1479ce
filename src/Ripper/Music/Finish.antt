-- ===== src/Ripper/Music/Finish.antt =====
-- What `_stream_abcde_output` of arm/ripper/utils.py leaves.
use mathlib.Core.List.{append-nil, append_assoc}
use automatic_ripping_machin.Common.{
  keep, All, ltb, if◌then◌else◌, is_empty, ℕ, ◌-◌, String, ◌≡◌, refl, sym, ap, ap₂, ◌∙◌, Bool, true,
  false, Option, none, some, List, [], ◌∷◌, ◌++◌,
}
use automatic_ripping_machin.Ripper.Music.{
  Classes, classify_abcde_line, Phases, see, Track, is_success, apply_phase, apply_track_phases,
  Event, output, stalled, Stream, update_tracks, is_error, take_line, rstrip_newline, stream_lines,
  no_phases, start_stream, stream_abcde_output,
}
use automatic_ripping_machin.Ripper.Music.Final.{
  printed, see_all, is_output, Sub, Sub-refl, Sub-trans, Sub-see, apply_track_phases-twice,
}

module _ (k : Classes) (tracks : List Track)
    (fresh : All (λ t. is_success t.status ≡ false) tracks) where
  -- The tracks are those at first after one update.
  record IsAt (s : Stream) : Type 0 where
    applied : Phases
    seen : Sub applied s.phases
    rows : s.tracks ≡ apply_track_phases applied tracks

  nothing_seen : (ts : List Track) → ts ≡ apply_track_phases no_phases ts
  unfolding apply_track_phases
  nothing_seen [] = refl
  nothing_seen (t ∷ ts) = ap₂ ◌∷◌ (same t.track_number) (nothing_seen ts)
    where
      same : (n : Option ℕ) → t ≡ apply_phase no_phases n t
      same none = refl
      same (some n) = refl

  start_stream-IsAt : IsAt (start_stream tracks)
  start_stream-IsAt = record {
    applied = no_phases;
    seen = Sub-refl no_phases;
    rows = nothing_seen tracks;
  }

  abbrev later : String → Stream → List String → ℕ → List Track → Stream
  later line s errors last ts = record {
    phases = see k line s.phases;
    error_lines = errors;
    last_phase_update = last;
    tracks = ts;
  }

  updated :
      (line : String) (s : Stream) (errors : List String) (last : ℕ) (due commits : Bool)
      → IsAt s
      → IsAt (
          later line s errors last
            (if due then update_tracks commits (see k line s.phases) s.tracks else s.tracks))
  updated line s errors last true true h = record {
    applied = see k line s.phases;
    seen = Sub-refl _;
    rows =
        ap (apply_track_phases (see k line s.phases)) h.rows
        ∙ apply_track_phases-twice h.applied _ tracks
            (Sub-trans h.applied s.phases _ h.seen (Sub-see k line s.phases)) fresh;
  }
  updated line s errors last true false h = record {
    applied = h.applied;
    seen = Sub-trans h.applied s.phases _ h.seen (Sub-see k line s.phases);
    rows = h.rows;
  }
  updated line s errors last false commits h = record {
    applied = h.applied;
    seen = Sub-trans h.applied s.phases _ h.seen (Sub-see k line s.phases);
    rows = h.rows;
  }

  take_line-IsAt :
      (line : String) (now : ℕ) (commits : Bool) (s : Stream)
      → IsAt s
      → IsAt (take_line k line now commits s)
  unfolding take_line
  take_line-IsAt line now commits s h =
      updated line s _ _ (ltb 3 (now - s.last_phase_update)) commits h

  abbrev errors_of : List String → List String
  errors_of lines = keep (λ line. is_error (classify_abcde_line k line)) lines

  -- The loop ends with all the lines seen.
  record Result (lines : List String) (s : Stream) (r : Stream × Bool) : Type 0 where
    ended : r.1 ≡ true
    at : IsAt r.0
    phases : r.0.phases ≡ see_all k lines s.phases
    error_lines : r.0.error_lines ≡ s.error_lines ++ errors_of lines

  take_line-phases :
      (line : String) (now : ℕ) (commits : Bool) (s : Stream)
      → (take_line k line now commits s).phases ≡ see k line s.phases
  unfolding take_line
  take_line-phases line now commits s = refl

  take_line-error_lines :
      (line : String) (lines : List String) (now : ℕ) (commits : Bool) (s : Stream)
      → (take_line k line now commits s).error_lines ++ errors_of lines
        ≡ s.error_lines ++ errors_of (line ∷ lines)
  unfolding take_line
  take_line-error_lines line lines now commits s = added (is_error (classify_abcde_line k line))
    where
      added :
          (b : Bool)
          → (if b then s.error_lines ++ line ∷ [] else s.error_lines) ++ errors_of lines
            ≡ s.error_lines ++ (if b then line ∷ errors_of lines else errors_of lines)
      added true = append_assoc s.error_lines (line ∷ []) (errors_of lines)
      added false = refl

  one_line :
      (line : String) (lines : List String) (now : ℕ) (commits : Bool) (s : Stream)
      (r : Stream × Bool)
      → Result lines (take_line k line now commits s) r
      → Result (line ∷ lines) s r
  one_line line lines now commits s r h = record {
    ended = h.ended;
    at = h.at;
    phases = h.phases ∙ ap (see_all k lines) (take_line-phases line now commits s);
    error_lines = h.error_lines ∙ take_line-error_lines line lines now commits s;
  }

  branches :
      (ends blank : Bool) (line : String) (lines : List String) (now : ℕ) (commits : Bool)
      (s : Stream) (u : Stream → Stream × Bool)
      → IsAt s
      → ((t : Stream) → IsAt t → Result lines t (u t))
      → Result
          (if ends then [] else if blank then lines else line ∷ lines)
          s
          (if ends then (s, true) else u (if blank then s else take_line k line now commits s))
  branches true blank line lines now commits s u h f = record {
    ended = refl;
    at = h;
    phases = refl;
    error_lines = sym (append-nil s.error_lines);
  }
  branches false true line lines now commits s u h f = f s h
  branches false false line lines now commits s u h f =
      one_line line lines now commits s _ (f _ (take_line-IsAt line now commits s h))

  stream_lines-Result :
      (es : List Event) (s : Stream)
      → All (λ e. is_output e ≡ true) es
      → IsAt s
      → Result (printed es) s (stream_lines k es s)
  unfolding stream_lines
  stream_lines-Result [] s o h = record {
    ended = refl;
    at = h;
    phases = refl;
    error_lines = sym (append-nil s.error_lines);
  }
  stream_lines-Result (stalled ∷ es) s o h = cc o.0
  stream_lines-Result (output raw now commits ∷ es) s o h =
      branches (is_empty raw) (is_empty (rstrip_newline raw)) (rstrip_newline raw) (printed es) now
        commits s (stream_lines k es) h (λ t at. stream_lines-Result es t o.1 at)

  -- Where no track is marked ripped before, the output never stalls and the last update of the
  -- database succeeds: the tracks are what one update with the phases of all printed lines makes of
  -- them, and the error lines are those of the printed lines that are errors, in their order,
  -- whatever the times of the lines are and whichever updates in between succeed.
  pub stream_abcde_output_final :
      (es : List Event)
      → All (λ e. is_output e ≡ true) es
      → stream_abcde_output k es true tracks ≡ (
        apply_track_phases (see_all k (printed es) no_phases) tracks,
        some (keep (λ line. is_error (classify_abcde_line k line)) (printed es)),
      )
  unfolding stream_abcde_output
  stream_abcde_output_final es o =
      let h = stream_lines-Result es (start_stream tracks) o start_stream-IsAt in
      let last =
        ap (apply_track_phases (stream_lines k es (start_stream tracks)).0.phases) h.at.rows
        ∙ apply_track_phases-twice h.at.applied _ tracks h.at.seen fresh
        ∙ ap (λ p. apply_track_phases p tracks) h.phases in
      rw h.ended (ap₂ (λ ts errors. (ts, some errors)) last h.error_lines)
