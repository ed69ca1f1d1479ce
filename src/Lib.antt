-- ===== src/Lib.antt =====
-- A verification library for the Automatic Ripping Machine (ARM), a service that rips the discs
-- that a user puts into the drives and reports on it.
--
-- Notify: arm/notifications. `publish_event` (events.py) renders an event (templates.py), writes
-- it to the history and puts one row for each subscribed channel into the outbox; the worker
-- (dispatcher.py) takes the due rows, sends each by its channel's sender (channels/) and records
-- the outcome (outbox.py), which retries it with a growing delay or gives it up. The tables are
-- one `Store`: the channels, the outbox, the history and the outbox's next key. The modules are
-- Outbox (outbox.py), Channels (channels/apprise.py, channels/webhook.py, channels/bash.py and
-- url_safety.py), Publish (templates.py, events.py), Dispatcher (dispatcher.py) and Rows (the ids
-- of the outbox's rows). A time is a number of seconds, and each call takes the reading of the
-- clock. The orders in which the web service, the worker, the reaper and the sweep may run are the
-- runs of the step relation `Step` of Notify/Dispatcher/Bounded.antt.
--
-- Machine: the jobs and the drives (arm/models/job.py, arm/models/system_drives.py) as one
-- `Database`, and what moves them: Drives (arm/services/drives.py, the rescan of the drives),
-- Startup (arm/services/job_cleanup.py and `clean_old_jobs` of arm/ripper/utils.py), Handlers (the
-- requests of arm/api/v1/jobs.py, `abandon_job` of arm/services/jobs.py and `Job.eject`), Callback
-- (`transcode_callback`), and Setup (the start of a job in `setup` of arm/ripper/main.py, with
-- `duplicate_run_check` and `update_drive_job`); Steps is their step relation. What udev finds,
-- which pids exist, which processes may not be ended and whether `finalize_output` returns are
-- arguments.
--
-- Naming: `validate_pattern` of arm/ripper/naming.py and the edit distance behind its suggestions,
-- on texts as lists of code points. Clean is `clean_for_filename` with the paths joined of cleaned
-- segments, and Render the variables, patterns, titles and folders of a job and its tracks, up to
-- `render_all_tracks`. The classes of characters, `int`, `str.format_map` and the tokens of the
-- contracts are arguments.
--
-- Makemkv: the tracks that are ripped (Selection): `mark_prescan_filter_state` of
-- arm/ripper/utils.py, `auto_disable_short_tracks` of arm/ripper/import_prescan.py, and
-- `process_single_tracks`, `apply_makemkv_skips` and the flags of `makemkv_mkv` in
-- arm/ripper/makemkv.py; and the files on the disk that are the tracks' (Names, Reconcile):
-- `_strip_track_suffix` and the passes of `_reconcile_filenames` without a title map, where
-- `claimed` and `matched_ids` are one list of claims. Parse reads the lines of makemkvcon
-- (`parse_line`), Info makes the rows of the tracks of them (`TrackInfoProcessor`, `put_track`),
-- and Output is what `MakeMKVOutputChecker.check` returns or raises for a message of makemkvcon.
-- Whether makemkvcon rips a track, what characters are digits and Python's `int` are arguments.
--
-- Matching: arm/services/matching/tvdb_matcher.py, which matches the tracks of a disc with the
-- episodes of a season by their lengths: `_match_greedy` (the pairs in Matching.antt, the rest in
-- Assignment), `_match_windowed` and `match_tracks_to_episodes` (Assignment), and
-- `match_tracks_best_season` (Seasons). The floats and their operations are an argument (Floats).
--
-- Ripper: parts of arm/ripper/utils.py. Wait is `check_for_wait` with `_poll_manual_wait`, on the
-- list of what the polls find, and Music is `_classify_abcde_line`, `_apply_track_phases` and
-- `_stream_abcde_output`, on the list of the lines that abcde prints, with the times, the updates
-- of the database that succeed, the classes of characters and `int` as arguments. Folder is
-- `check_for_dupe_folder` on a disk given by the paths of its directories and files; the
-- directories that `os.makedirs` makes above the path are not in it, and which paths can be made
-- and the last job of a label are arguments.
--
-- Common: the shared names, Boolean tests, lists, texts and a stable sort. Every loop is a
-- structural recursion; the one function on fuel is `show` (Common/Texts.antt), which takes one
-- unit for each digit and gets one more than the number's value.
--
-- Parameters, since their code is no part of the repository: httpx, apprise, urlparse, the
-- resolver, ipaddress, the file system and the scripts (`Outside`; those that may raise an
-- exception do so in the model too), the event models of the contracts and `str.format_map`
-- (`Events`).
--
-- Not modelled: the other routes of the web API, the processes of a rip, the migrations, the
-- configuration, the metadata clients and the user interface, which move data between the database
-- and the outside.
pub mod Common
pub mod Machine
pub mod Makemkv
pub mod Matching
pub mod Naming
pub mod Notify
pub mod Ripper
