-- ===== src/Tests/Exporting.antt =====
-- The report of a session, at concrete inputs.
use vita_os.Prelude.{true, false, none, some, ◌++◌, ◌≡◌, sym, ap, ◌∙◌, codes, map, ◌⊎◌}
use vita_os.Text.{Bytes, starts_with}
use vita_os.Storage.Paths.Confined.{host_path}
use vita_os.Storage.Files.Kept.{IsOutside}
use vita_os.Export.Json.{json_string}
use vita_os.Export.Json.Decode.{plain_char, read_string, read_string-json_string}
use vita_os.Export.Write.{report_path, report_text, session_export_write_jsonl}
use vita_os.Export.Write.Stored.{IsExported, session_export_write_jsonl-content}
use vita_os.Tests.Fixtures.{memory_host, memory_frame, printer, new_site, context}

read_string-json_string_example :
    read_string (json_string (codes "a\"b\\\n") ++ codes ",")
    ≡ some (map plain_char (codes "a\"b\\\n"), codes ",")
read_string-json_string_example = read_string-json_string (codes "a\"b\\\n") (codes ",")

report-IsOutside : IsOutside memory_host memory_frame report_path
unfolding starts_with
report-IsOutside own (rest, e) same =
    let apart : true ≡ false =
      ap (λ (t : Bytes). starts_with t (codes "build/storage/vita/audit"))
        (sym (ap host_path e) ∙ same) in
    absurd (cc apart)

session_export_write_jsonl-content_example :
    ((session_export_write_jsonl printer memory_host none context new_site).0.0 ≡ false)
    ⊎ IsExported printer memory_host memory_frame
        (report_text printer memory_host none context new_site.station.transcript
          new_site.station.world).0
        new_site
        (session_export_write_jsonl printer memory_host none context new_site)
session_export_write_jsonl-content_example =
    session_export_write_jsonl-content printer memory_host memory_frame none context new_site
      report-IsOutside
