-- ===== src/Tests/Printing.antt =====
-- Printing with the recording of what is printed, at concrete inputs.
use vita_os.Prelude.{true, false, List, ◌≡◌, refl, sym, ap, ◌∙◌, codes, arith}
use vita_os.Text.{Bytes, str_eq, str_append, str_copy, starts_with}
use vita_os.Storage.Paths
use vita_os.Storage.Paths.{chars_allowed, hosted_map_path}
use vita_os.Storage.Paths.Confined.{host_path}
use vita_os.Storage.Files.{
  storage_is_ready, storage_write_text, storage_read_text, storage_last_error, set_error,
  hosted_ensure_parent_dirs,
}
use vita_os.Storage.Files.RoundTrip.{content}
use vita_os.Storage.Files.Reads.{SameSwitches}
use vita_os.Storage.Files.Kept.{IsOutside}
use vita_os.Transcript.{event, flush, txt_path, jsonl_path}
use vita_os.Transcript.Lines.{append_all, part_path, u6, digit, text_pieces}
use vita_os.Transcript.Output.{is_prompt, strip, session_transcript_log_system_output}
use vita_os.Console.{Site, console_write_line, console_pager_after_line}
use vita_os.Console.Pager.{IsCounted, pager_after_line-IsCounted}
use vita_os.Console.Errors.{console_write_line_forgets}
use vita_os.Console.Attached.{perform_effect}
use vita_os.Console.Attached.Saved.{perform_effect-content}
use vita_os.Shell.{on_world}
use vita_os.Shell.Tree.{expected_dirs, storage_bootstrap_persistent_tree}
use vita_os.Shell.Tree.Verified.{HasDirs, with_dirs, IsVerified, storage_bootstrap-IsVerified}
use vita_os.Editor.Session.{write_line}
use vita_os.Tests.Fixtures.{Files, memory_host, memory_frame, printer, new_console, new_site}

abbrev note : Bytes
note = codes "/vita/notes/a.txt"

note-IsOutside : IsOutside memory_host memory_frame note
unfolding starts_with
note-IsOutside own (rest, e) same =
    let apart : true ≡ false =
      ap (λ (t : Bytes). starts_with t (codes "build/storage/vita/audit"))
        (sym (ap host_path e) ∙ same) in
    absurd (cc apart)

pager_after_line-IsCounted_example :
    IsCounted printer new_console (console_pager_after_line printer new_console)
pager_after_line-IsCounted_example =
    pager_after_line-IsCounted printer new_console (record {
      enabled = refl;
      idle = refl;
      reader = refl;
      room = omega arith;
      small = omega arith;
    })

perform_effect-content_example :
    (content memory_host
        (perform_effect printer memory_host (write_line (codes "hello")) new_site).station.world
        note
      ≡ content memory_host new_site.station.world note)
    × SameSwitches memory_host new_site.station.world
        (perform_effect printer memory_host (write_line (codes "hello")) new_site).station.world
perform_effect-content_example =
    perform_effect-content printer memory_host memory_frame (write_line (codes "hello")) note
      new_site note-IsOutside

-- A station whose last storage operation has failed.
abbrev failed_site : Site Files (List Bytes)
failed_site = record new_site {
  station = record new_site.station {
    transcript = record new_site.station.transcript { jsonl_locked = true };
    world = record new_site.station.world {
      storage = record new_site.station.world.storage {
        last_error = codes "hosted fopen read failed";
      };
    };
  };
}

message : is_prompt (strip 0 false (codes "note load: failed")) ≡ false
unfolding is_prompt strip str_eq
message = refl

records :
    (console_write_line printer memory_host
      (codes "note load: failed")
      failed_site).station.transcript.active
    ≡ true
unfolding console_write_line session_transcript_log_system_output event flush txt_path jsonl_path
    append_all part_path u6 digit text_pieces strip is_prompt starts_with chars_allowed
    storage_write_text Paths.path_allowed str_eq hosted_map_path str_append str_copy
    storage_read_text set_error hosted_ensure_parent_dirs
records = refl

console_write_line_forgets_example :
    storage_last_error
      (console_write_line printer memory_host (codes "note load: failed") failed_site).station.world
    ≡ codes "ok"
console_write_line_forgets_example =
    console_write_line_forgets printer memory_host (codes "note load: failed") failed_site refl refl
      message refl refl records

bootstraps : (storage_bootstrap_persistent_tree printer memory_host new_site).0 ≡ true
unfolding storage_bootstrap_persistent_tree starts_with chars_allowed storage_write_text
    Paths.path_allowed str_eq hosted_map_path str_append str_copy storage_read_text set_error
    hosted_ensure_parent_dirs on_world
bootstraps = refl

storage_bootstrap-IsVerified_example :
    (storage_is_ready new_site.station.world ≡ true)
    × HasDirs printer memory_host expected_dirs
        (with_dirs printer memory_host expected_dirs new_site.station.world.fs)
    × IsVerified printer memory_host
        (storage_bootstrap_persistent_tree printer memory_host new_site).1
storage_bootstrap-IsVerified_example =
    storage_bootstrap-IsVerified printer memory_host new_site bootstraps
