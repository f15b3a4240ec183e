-- ===== src/Tests/Fixtures.antt =====
-- A database and a file system in memory, and a session that records nothing.
use vita_os.Prelude.{
  ℕ, Bool, true, false, Option, none, some, List, [], ◌∷◌, ◌++◌, ◌≡◌, refl, codes, replicate,
  if◌then◌else◌, ap, if_elim, take,
}
use vita_os.Text.{Bytes, str_eq}
use vita_os.Text.Laws.{str_eq_refl, str_eq_iff}
use vita_os.Audit.Rows.{EventRow}
use vita_os.Audit.Sqlite.{Sqlite, new_events}
use vita_os.Audit.State.{Call}
use vita_os.Storage.Host.{Host, HostFrame, complete, unclosed}
use vita_os.Storage.Files.{World, backend_hosted}
use vita_os.Journal.{Journal}
use vita_os.Transcript.{Transcript}
use vita_os.Console.{Terminal, Console, Site}
use vita_os.Console.Screens.{mode_guided}
use vita_os.Transcript.Start.{firmware_hosted}
use vita_os.Export.Lines.{Context}
use vita_os.Audit.Rows.{NodePeer}
use vita_os.Audit.State.{audit_early_buffer_init}
use vita_os.Kernel.{Kernel}
use vita_os.Node.{discovered}
use vita_os.Node.Endpoint.{Network, pos}
use vita_os.Proposal.{new_slot}
use vita_os.Command.{Platform, Machine}
use vita_os.Editor.Session.{Session}
use vita_os.Editor.State.{Editor, open_edit}

-- A database that holds the events alone, and whose statements succeed.
abbrev pub memory_sqlite : Sqlite
memory_sqlite = record {
  Db = List EventRow;
  open_db = λ path. some [];
  read_file = λ path. some (codes "CREATE TABLE audit_event;");
  exec = λ db text. (true, db);
  columns = λ db. [];
  insert = λ db row. (true, db ++ new_events row);
  events = λ db. db;
  events-insert = λ db row. refl;
}

abbrev pub call : Call
call = record { mono = 7; unix = 1700000000; stack = replicate 64 255 }

abbrev pub Files : Type 0
Files = List (Bytes × Bytes)

abbrev pub find_file : Files → Bytes → Option Bytes
find_file [] path = none
find_file ((name, text) ∷ files) path = if str_eq name path then some text else find_file files path

pub find_file_first :
    (files : Files) (path text : Bytes) → find_file ((path, text) ∷ files) path ≡ some text
find_file_first files path text =
    ap (λ (b : Bool). if b then some text else find_file files path) (str_eq_refl path)

pub never_unclosed : (text file : Bytes) → complete ≡ unclosed → (n : ℕ) × (file ≡ take n text)
never_unclosed text file h = cc

-- A file system as a list of files, the newest first, where directories always exist.
abbrev pub memory_host : Host
memory_host = record {
  Fs = Files;
  make_dir = λ fs path. fs;
  exists = λ fs path. true;
  write_file = λ fs path text. (complete, (path, text) ∷ fs);
  read_file = find_file;
  list_dir = λ fs path. none;
  read-write = λ fs path text h. find_file_first fs path text;
  read-unclosed = λ fs path text file h e. never_unclosed text file h;
}

abbrev pub ready_world : World Files
ready_world = record {
  storage = record {
    initialized = true;
    writable = true;
    bootstrap_attempted = false;
    bootstrap_verified = false;
    backend = backend_hosted;
    backend_name = codes "hosted_fs";
    root_hint = codes "build/storage/vita";
    last_error = codes "ok";
  };
  fs = [];
  printed = [];
}

abbrev pub silent : Session memory_host
silent = record {
  perform = λ e w. w;
  OwnFile = λ path. ⊥;
  keeps_content = λ e w path own. refl;
  keeps_initialized = λ e w. refl;
  keeps_writable = λ e w. refl;
}

abbrev pub editing : Bytes → Editor Files
editing text = record {
  text = text;
  path = codes "/vita/notes/a.txt";
  saveas_path = [];
  loaded_existing = false;
  destructive_change = false;
  save_confirmed = false;
  dirty = true;
  mode = open_edit;
  world = ready_world;
}

pub find_file_other :
    (files : Files) (path text other : Bytes)
    → (path ≡ other → ⊥)
    → find_file ((path, text) ∷ files) other ≡ find_file files other
find_file_other files path text other apart =
    if_elim (λ (o : Option Bytes). o ≡ find_file files other) (str_eq path other) (some text)
      (find_file files other) (λ same. absurd (apart ((str_eq_iff path other).0 same))) (λ _. refl)

-- In memory, a path names one file.
abbrev pub memory_frame : HostFrame memory_host
memory_frame = record {
  Same = λ path other. path ≡ other;
  keeps_make_dir = λ fs path other. refl;
  keeps_write = λ fs path text other apart. find_file_other fs path text other apart;
}

abbrev pub new_journal : Journal
new_journal = record {
  initialized = true;
  active = true;
  truncated = false;
  last_flush_ok = false;
  seq = 0;
  jsonl = [];
  text = [];
  last_error = [];
}

abbrev pub new_transcript : Transcript
new_transcript = record {
  initialized = true;
  active = true;
  busy = false;
  error_reported = false;
  seq = 0;
  session_id = codes "session-000001";
  txt = [];
  jsonl = [];
  state = codes "active";
  last_text = [];
  identity = record {
    boot_id = codes "b";
    node_id = codes "n";
    host_id = codes "h";
    arch = codes "a";
    firmware = codes "f";
    boot_mode = codes "m";
    cpu_model = codes "c";
    ram_bytes = 0;
    storage_backend = codes "s";
    storage_state = codes "v";
  };
  current_jsonl_part = 1;
  jsonl_rotation_count = 0;
  truncated_reported = false;
  jsonl_locked = false;
}

-- A terminal that keeps what is printed, and whose user only presses Enter.
abbrev pub printer : Terminal
printer = record {
  Device = List Bytes;
  writer = λ text d. d ++ text ∷ [];
  raw_writer = λ text d. d ++ text ∷ [];
  reader = λ room d. ((true, []), d);
  clear = λ d. [];
}

abbrev pub new_console : Console (List Bytes)
new_console = record {
  writer_bound = true;
  raw_writer_bound = false;
  reader_bound = true;
  clear_bound = false;
  ansi_enabled = false;
  transcript_logging = false;
  pager_enabled = true;
  pager_busy = false;
  pager_line_count = 21;
  pager_line_limit = 22;
  device = [];
}

abbrev pub new_site : Site Files (List Bytes)
new_site = record {
  console = new_console;
  station = record { transcript = new_transcript; journal = new_journal; world = ready_world };
}

abbrev pub context : Context
context = record {
  firmware = firmware_hosted;
  boot_status = record { arch_name = codes "x86_64"; console_ready = true; audit_ready = true };
  console_state = record {
    arch_name = codes "x86_64";
    boot_mode = codes "hosted";
    language_mode = codes "es,en";
    console_ready = true;
    audit_ready = true;
    proposal_engine_ready = true;
    node_core_ready = true;
    peer_count = 1;
    pending_proposal_count = 0;
    mode = mode_guided;
  };
  hw_snapshot = record {
    cpu_arch = codes "x86_64";
    cpu_model = codes "c";
    ram_bytes = 1024;
    firmware_type = codes "hosted";
    console_type = codes "stdio";
    display_count = 1;
    keyboard_count = 1;
    mouse_count = 0;
    audio_count = 0;
    microphone_count = 0;
    net_count = 1;
    ethernet_count = 1;
    wifi_count = 0;
    storage_count = 1;
    usb_count = 0;
    usb_controller_count = 0;
    detected_at_unix = 1700000000;
  };
  hw_ready = true;
  proposal_ready = true;
  node_ready = true;
}

abbrev pub network : Network
network = record { inet_aton = λ ip. some 1; atoi = λ text. pos 47001 }

abbrev pub clock : ℕ → Call
clock i = call

abbrev pub known_peer : NodePeer
known_peer = record {
  peer_id = codes "node-b";
  first_seen_unix = 5;
  last_seen_unix = 6;
  transport = codes "udp/ipv4-hosted";
  capabilities_json = codes "{}";
  trust_state = codes "observed";
  link_state = discovered;
}

-- A peer is known, the human is being asked, and two proposals wait.
abbrev pub asked : Kernel (List EventRow)
asked = record {
  audit = audit_early_buffer_init (List EventRow);
  node = record {
    peer = known_peer;
    peer_valid = true;
    link_proposal_pending = true;
    seed_endpoint = codes "127.0.0.1:47001";
  };
  proposals =
      new_slot 0 (codes "a") (codes "b") (codes "c") (codes "low") (codes "high")
      ∷ new_slot 1 (codes "d") (codes "e") (codes "f") (codes "low") (codes "high")
      ∷ [];
  printed = [];
  sent = [];
  ticks = 0;
}

-- A terminal that prints nothing, and whose user has typed these lines and then closes it.
abbrev pub typist : Terminal
typist = record {
  Device = List Bytes;
  writer = λ text d. d;
  raw_writer = λ text d. d;
  reader = λ room d. elim d [ [] ↦ ((false, []), []) | line ∷ lines ↦ ((true, line), lines) ];
  clear = λ d. d;
}

abbrev pub platform : Platform
platform = record {
  sql = memory_sqlite;
  net = network;
  clock = clock;
  terminal = typist;
  host = memory_host;
  frame = memory_frame;
  socket_open = false;
  counts = λ kernel path. none;
}

-- A machine whose console has no writer, with those lines to come.
abbrev pub machine : List Bytes → Machine (List EventRow) Files (List Bytes)
machine lines = record {
  ctx = context;
  audit_db_path = none;
  site = record {
    console = record new_console { writer_bound = false; pager_enabled = false; device = lines };
    station = record {
      transcript = record new_transcript { active = false };
      journal = record new_journal { active = false };
      world = ready_world;
    };
  };
  kernel = asked;
  ai = record { host = []; port = 0; endpoint_configured = false };
  editor = record {
    text = [];
    path = [];
    saveas_path = [];
    loaded_existing = false;
    destructive_change = false;
    save_confirmed = false;
    dirty = false;
    mode = open_edit;
    world = record {
      storage = ready_world.storage;
      fs = record {
        fs = [];
        console = new_console;
        transcript = new_transcript;
        journal = new_journal;
      };
      printed = [];
    };
  };
}
