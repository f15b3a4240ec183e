-- ===== src/Console.antt =====
-- kernel/console.c: the console, its pager and its styles, and the recording of each line that it
-- prints in the session's transcript. The guided screens are in Console.Screens.
pub mod Screens
pub mod Status
pub mod Pager
pub mod Recorded
pub mod Attached
pub mod Errors
pub mod Autocomplete
use vita_os.Prelude.{
  ℕ, zero, suc, ◌+◌, ◌%◌, ◌^◌, Bool, true, false, not, ◌&&◌, ◌||◌, some, List, [], ◌∷◌, ◌++◌, codes,
  ltb, if◌then◌else◌,
}
use vita_os.Text.{Bytes, str_copy, str_append}
use vita_os.Storage.Host.{Host}
use vita_os.Transcript.{Station}
use vita_os.Transcript.Output.{session_transcript_log_system_output}

-- What the boot stage binds to the console: the two writers, the reader, which is given the room of
-- its buffer, and the clearing of the screen.
pub record Terminal : Type 1 where
  pub Device : Type 0
  pub writer : Bytes → Device → Device
  pub raw_writer : Bytes → Device → Device
  pub reader : ℕ → Device → (Bool × Bytes) × Device
  pub clear : Device → Device

-- the variables of kernel/console.c; the first four say which functions are bound
pub record Console (Device : Type 0) : Type 0 where
  pub writer_bound : Bool
  pub raw_writer_bound : Bool
  pub reader_bound : Bool
  pub clear_bound : Bool
  pub ansi_enabled : Bool
  pub transcript_logging : Bool
  pub pager_enabled : Bool
  pub pager_busy : Bool
  pub pager_line_count : ℕ
  pub pager_line_limit : ℕ
  pub device : Device

-- The console beside what recording a line touches.
pub record Site (Fs Device : Type 0) : Type 0 where
  pub console : Console Device
  pub station : Station Fs

-- `vita_console_style_t`
pub data Style : Type 0 where
  style_default style_en style_es style_error style_ok style_warning style_editor_text : Style

style_is_color : Style → Bool
style_is_color style_default = false
style_is_color style_en = false
style_is_color _ = true

escape : Bytes → Bytes
escape s = 27 ∷ s

style_ansi : Style → Bytes
unfolding escape
style_ansi style_es = escape (codes "[32m")
style_ansi style_ok = escape (codes "[32m")
style_ansi style_error = escape (codes "[31m")
style_ansi style_warning = escape (codes "[33m")
style_ansi style_editor_text = escape (codes "[36m")
style_ansi _ = escape (codes "[0m")

-- a prefix in front of a text, in a buffer of 256 bytes
prefixed : Bytes → Bytes → Bytes
prefixed [] text = str_copy [] 256 (some text)
prefixed (c ∷ prefix) text = str_append (str_copy [] 256 (some (c ∷ prefix))) 256 (some text)

module _ (terminal : Terminal) where
  open terminal use {Device}

  -- `console_early_init` of the hosted build
  pub console_early_init : Console Device → Console Device
  console_early_init c = record c { ansi_enabled = true }

  unfoldable pub console_write_raw : Bytes → Console Device → Console Device
  console_write_raw text c =
      if c.raw_writer_bound
      then record c { device = terminal.raw_writer text c.device }
      else if c.writer_bound
      then record c { device = terminal.writer text c.device }
      else c

  console_set_style : Style → Console Device → Console Device
  unfolding style_ansi
  console_set_style style c =
      if not c.ansi_enabled || not (style_is_color style)
      then c
      else console_write_raw (style_ansi style) c

  console_reset_style : Console Device → Console Device
  unfolding escape
  console_reset_style c =
      if not c.ansi_enabled then c else console_write_raw (escape (codes "[0m")) c

  console_prompt_begin : Console Device → Console Device
  unfolding escape
  console_prompt_begin c =
      if not c.ansi_enabled then c else console_write_raw (escape (codes "[?25h")) c

  console_prompt_end : Console Device → Console Device
  unfolding console_reset_style
  console_prompt_end c = if not c.ansi_enabled then c else console_reset_style c

  console_input_style_begin : Console Device → Console Device
  unfolding escape
  console_input_style_begin c =
      if not c.ansi_enabled then c else console_write_raw (escape (codes "[31m")) c

  console_input_style_end : Console Device → Console Device
  unfolding console_reset_style
  console_input_style_end c = if not c.ansi_enabled then c else console_reset_style c

  unfoldable pub console_guided_prompt : Console Device → Console Device
  unfolding console_prompt_begin console_input_style_begin
  console_guided_prompt c =
      console_input_style_begin (console_write_raw (codes "> ") (console_prompt_begin c))

  after_read : (Bool × Bytes) × Device → Console Device → (Bool × Bytes) × Console Device
  unfolding console_input_style_end console_prompt_end
  after_read (line, device) c =
      (line, console_prompt_end (console_input_style_end (record c { device = device })))

  -- a line into a buffer with that room
  unfoldable pub console_read_line : ℕ → Console Device → (Bool × Bytes) × Console Device
  unfolding after_read
  console_read_line zero c = ((false, []), c)
  console_read_line (suc room) c =
      if not c.reader_bound
      then after_read ((false, []), c.device) c
      else after_read (terminal.reader (suc room) c.device) c

  -- The wait of the pager for a key.
  pager_wait : Console Device → Console Device
  pager_wait c =
      let (line, c') =
        console_read_line 8
          (console_write_raw (codes "-- more / mas: Enter --") (record c { pager_busy = true })) in
      record c' { pager_line_count = 0; pager_busy = false }

  pub console_pager_after_line : Console Device → Console Device
  unfolding pager_wait
  console_pager_after_line c =
      let counted = record c { pager_line_count = (c.pager_line_count + 1) % 2 ^ 64 } in
      if not c.pager_enabled || (c.pager_busy || not c.reader_bound)
      then c
      else if ltb counted.pager_line_count c.pager_line_limit
      then counted
      else pager_wait counted

  unfoldable pub console_pager_begin : ℕ → Console Device → Console Device
  console_pager_begin page_lines c = record c {
    pager_enabled = true;
    pager_busy = false;
    pager_line_count = 0;
    pager_line_limit = if ltb 0 page_lines then page_lines else 22;
  }

  unfoldable pub console_pager_end : Console Device → Console Device
  console_pager_end c = record c { pager_enabled = false; pager_busy = false; pager_line_count = 0 }

  module _ (host : Host) where
    open host use {Fs}

    pub on_console : (Console Device → Console Device) → Site Fs Device → Site Fs Device
    on_console f s = record s { console = f s.console }

    -- The recording of a line, which a line that recording prints would not be given.
    pub record_line : Bytes → Site Fs Device → Site Fs Device
    record_line text s =
        if s.console.transcript_logging
        then s
        else record s { station = session_transcript_log_system_output host text false s.station }

    unfoldable pub console_write_line : Bytes → Site Fs Device → Site Fs Device
    unfolding on_console record_line
    console_write_line text s =
        if not s.console.writer_bound
        then s
        else on_console console_pager_after_line (
            record_line text
              (on_console (λ c. record c { device = terminal.writer text c.device }) s))

    console_write_styled : Style → Bytes → Bytes → Site Fs Device → Site Fs Device
    unfolding console_set_style console_reset_style prefixed on_console
    console_write_styled style prefix text s =
        on_console console_reset_style
          (console_write_line (prefixed prefix text) (on_console (console_set_style style) s))

    pub console_write_en : Bytes → Site Fs Device → Site Fs Device
    unfolding console_write_styled
    console_write_en = console_write_styled style_en []

    pub console_write_es : Bytes → Site Fs Device → Site Fs Device
    unfolding console_write_styled
    console_write_es = console_write_styled style_es []

    -- without colours, a prefix says what the line is
    marked : Style → Bytes → Bytes → Site Fs Device → Site Fs Device
    unfolding console_write_styled
    marked style mark text s =
        console_write_styled style (if s.console.ansi_enabled then [] else mark) text s

    pub console_write_error : Bytes → Site Fs Device → Site Fs Device
    unfolding marked
    console_write_error = marked style_error (codes "[ERROR] ")

    pub console_write_ok : Bytes → Site Fs Device → Site Fs Device
    unfolding marked
    console_write_ok = marked style_ok (codes "[OK] ")

    pub console_write_warning : Bytes → Site Fs Device → Site Fs Device
    unfolding marked
    console_write_warning = marked style_warning (codes "[WARN] ")

    pub console_write_editor_text : Bytes → Site Fs Device → Site Fs Device
    unfolding console_write_styled
    console_write_editor_text = console_write_styled style_editor_text []

    pub write_all : List Bytes → Site Fs Device → Site Fs Device
    write_all [] s = s
    write_all (line ∷ lines) s = write_all lines (console_write_line line s)

    pub console_clear_screen : Site Fs Device → Site Fs Device
    unfolding on_console write_all
    console_clear_screen s =
        if s.console.clear_bound
        then on_console (λ c. record c { device = terminal.clear c.device; pager_line_count = 0 }) s
        else write_all ([] ∷ codes "----------------------------------------" ∷ []) s
