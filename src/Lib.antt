-- ===== src/Lib.antt =====
-- VitaOS: the audit log, the storage facade, the console, the session's journal and transcript, the
-- note editor, the node core, the proposal engine, the AI gateway and the command loop of the hosted
-- kernel.
--
-- The kernel is a set of C modules with static state. This library models the hosted build
-- (VITA_HOSTED) of these:
--
--   kernel/audit_core.c: module Sha256 (the SHA-256 of the hash chain: `sha256_transform`, `_init`,
--   `_update`, `_final`, `hash_hex`) and module Audit. Audit.State is `audit_state_t` with the
--   operations that append (`append_event_internal`, `audit_emit_boot_event`, the `audit_persist_`
--   functions, `audit_upsert_node_peer`), Audit.Init is `audit_init_persistent_backend`,
--   Audit.Report the reports, and Audit.Ops a run of audit calls over a whole boot. Audit.Sqlite is
--   the interface to SQLite: a statement that reports success has appended its row, and one that
--   fails has written nothing.
--   kernel/storage.c: module Storage. Storage.Paths is `path_allowed` and `hosted_map_path`,
--   Storage.Files the state `g_storage` with the text file operations. Storage.Host is the
--   interface to the C library's files: what is written and closed, a read finds; behind an `fclose`
--   that fails, whose result the code drops, a file that can be read holds a beginning of the text;
--   and (`HostFrame`) what a write leaves alone.
--   kernel/session_journal.c: module Journal, `g_journal` with the recording of events, the
--   redaction and the flush to two files. Journal.Log is the unbounded log that it represents.
--   kernel/session_transcript.c: module Transcript, `g` with `event`, the rotation of the JSON parts
--   and the flush. Transcript.Lines is the text of the lines, Transcript.Start
--   `session_transcript_init`, and Transcript.Output the functions that other modules call.
--   kernel/console.c: module Console, the `g_console_` and `g_pager_` variables. What the boot stage
--   binds is the interface Terminal. Each printed line is recorded in the transcript, which writes
--   through the storage facade, which is why Console.Site holds all of them. Console.Screens is the
--   guided screens, Console.Status `storage_show_status`, and Console.Autocomplete
--   kernel/console_autocomplete.c. Console.Attached gives the editor its
--   session from the console and the transcript.
--   the commands of kernel/storage.c and kernel/session_journal.c, which print: module Shell, with
--   the tree of directories in Shell.Tree.
--   kernel/session_jsonl_export.c and kernel/session_export.c: module Export, the builder of JSON,
--   the lines and the export of the first, and in Export.Session the report of the second.
--   kernel/editor.c: module Editor. Editor.State is the `g_editor_` variables, Editor.Save the
--   verified save, Editor.Commands what each line does, Editor.Commands.Run `editor_run` over the
--   list of the lines that the user types, Editor.NotePath the path of a note, and Editor.Notes
--   `editor_handle_command`. Editor.Session is the
--   interface to the console and the transcript, which may write their own files.
--   kernel/node_core.c: module Node. Node.Endpoint is `parse_endpoint` with the interface to the C
--   library, Node itself `handle_message`, Node.Start the start with its receptions, the answer to
--   the link proposal and what is shown, and Node.Link the link with the peer as a state machine.
--   kernel/proposal.c: module Proposal, which asks the node core first when a line is an answer.
--   Module Kernel is the state that these two keep, with the audit log and the console.
--   kernel/vitair.c and kernel/vitair_audit.c: module VitaIr, the claims of three values.
--   kernel/command_core.c: module Command, whose Machine holds the state of all the modules above,
--   and whose Platform what is not under the repository. Command.Claims and Command.Lines are what
--   it shows, Command.Texts and Command.ReportTexts the texts of its reports, Command.Reports their
--   writing, Command.Steps and Command.Dispatch `command_handle_line` in its order, and Command.Loop
--   `command_loop_run`.
--   kernel/ai_gateway.c: module AiGateway, which stores an endpoint and answers by itself.
--   the C string helpers that each of these files repeats: module Text.
--
-- A C string is the list of its bytes before the NUL, and a pointer that the code tests for null is
-- an `Option`. A character buffer is the string that it holds, so bytes behind its NUL are not
-- modelled, except in the SHA-256 context, whose buffer is a list of 64 bytes of any content at
-- first. Machine integers are native numbers with the wrap-around written out (`% 2 ^ 32` in
-- SHA-256, `% 2 ^ 64` for sequence numbers and bit counts); counters that the code bounds by a
-- buffer's size are plain. Clocks and stack content are arguments of each call.
--
-- The loops recur on the list that they walk, or on the rounds left where the code counts; only
-- `u64_to_dec` has a bound of its own, the 31 digits of its buffer, and so has the printing of the
-- journal, the 8191 characters of its buffer. The loop of the commands alone has fuel, one for each
-- turn, and Command.Loop.Stops says how much is enough.
--
-- Not modelled: the UEFI build (the branches without VITA_HOSTED, arch/x86_64), and the other files
-- of kernel/: the sockets of net_connect.c, what net_status.c, hardware_discovery.c and
-- pci_discovery.c read from the machine, the firmware calls of power.c, and the boot in kmain.c. The
-- lines that the user types in the editor are an argument of a turn of the loop, and are not taken
-- from the terminal. The helper functions that only print are the lists of lines that they print.
mod Prelude
pub mod Text
pub mod Boot
pub mod Sha256
pub mod Audit
pub mod Storage
pub mod Editor
pub mod Journal
pub mod Transcript
pub mod VitaIr
pub mod Console
pub mod Shell
pub mod Export
pub mod Kernel
pub mod Node
pub mod Proposal
pub mod Command
pub mod AiGateway
mod Tests
