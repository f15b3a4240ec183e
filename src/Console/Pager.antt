-- ===== src/Console/Pager.antt =====
-- The pager stops after each full page.
use vita_os.Prelude.{
  ℕ, zero, suc, ◌+◌, ◌%◌, ◌^◌, ◌<◌, Bool, true, false, not, ◌||◌, [], ◌∷◌, ◌≡◌, refl, sym, ap, ◌∙◌,
  codes, ltb, if_elim, if◌then◌else◌, arith, ltb→lt,
}
use vita_os.Text.{Bytes}
use vita_os.Console.{
  Terminal, Console, console_write_raw, console_reset_style, console_input_style_end,
  console_prompt_end, after_read, console_read_line, pager_wait, console_pager_after_line,
}

module _ (terminal : Terminal) where
  open terminal use {Device}

  -- the fields of the pager, and what is bound, are the same
  record SamePager (c c' : Console Device) : Type 0 where
    enabled : c'.pager_enabled ≡ c.pager_enabled
    limit : c'.pager_line_limit ≡ c.pager_line_limit
    reader : c'.reader_bound ≡ c.reader_bound
    writer : c'.writer_bound ≡ c.writer_bound

  same_pager : (c : Console Device) → SamePager c c
  same_pager c = record { enabled = refl; limit = refl; reader = refl; writer = refl }

  then_same : (a b c : Console Device) → SamePager a b → SamePager b c → SamePager a c
  then_same a b c s t = record {
    enabled = t.enabled ∙ s.enabled;
    limit = t.limit ∙ s.limit;
    reader = t.reader ∙ s.reader;
    writer = t.writer ∙ s.writer;
  }

  raw-SamePager :
      (text : Bytes) (c : Console Device) → SamePager c (console_write_raw terminal text c)
  unfolding console_write_raw
  raw-SamePager text c =
      if_elim (SamePager c) c.raw_writer_bound
        (record c { device = terminal.raw_writer text c.device }) _
        (λ _. record { enabled = refl; limit = refl; reader = refl; writer = refl })
        λ _.
          if_elim (SamePager c) c.writer_bound (record c { device = terminal.writer text c.device })
            c (λ _. record { enabled = refl; limit = refl; reader = refl; writer = refl })
            (λ _. same_pager c)

  reset-SamePager : (c : Console Device) → SamePager c (console_reset_style terminal c)
  unfolding console_reset_style
  reset-SamePager c =
      if_elim (SamePager c) (not c.ansi_enabled) c (console_write_raw terminal (27 ∷ codes "[0m") c)
        (λ _. same_pager c) (λ _. raw-SamePager (27 ∷ codes "[0m") c)

  input_end-SamePager : (c : Console Device) → SamePager c (console_input_style_end terminal c)
  unfolding console_input_style_end
  input_end-SamePager c =
      if_elim (SamePager c) (not c.ansi_enabled) c (console_reset_style terminal c)
        (λ _. same_pager c) (λ _. reset-SamePager c)

  prompt_end-SamePager : (c : Console Device) → SamePager c (console_prompt_end terminal c)
  unfolding console_prompt_end
  prompt_end-SamePager c =
      if_elim (SamePager c) (not c.ansi_enabled) c (console_reset_style terminal c)
        (λ _. same_pager c) (λ _. reset-SamePager c)

  after_read-SamePager :
      (r : (Bool × Bytes) × Device) (c : Console Device) → SamePager c (after_read terminal r c).1
  unfolding after_read
  after_read-SamePager (line, device) c =
      let one = record c { device = device } in
      let two = console_input_style_end terminal one in
      then_same c two (console_prompt_end terminal two)
        (then_same c one two (record { enabled = refl; limit = refl; reader = refl; writer = refl })
          (input_end-SamePager one))
        (prompt_end-SamePager two)

  read_line-SamePager :
      (room : ℕ) (c : Console Device) → SamePager c (console_read_line terminal room c).1
  unfolding console_read_line
  read_line-SamePager zero c = same_pager c
  read_line-SamePager (suc room) c =
      if_elim (λ (r : (Bool × Bytes) × Console Device). SamePager c r.1) (not c.reader_bound)
        (after_read terminal ((false, []), c.device) c)
        (after_read terminal (terminal.reader (suc room) c.device) c)
        (λ _. after_read-SamePager ((false, []), c.device) c)
        (λ _. after_read-SamePager (terminal.reader (suc room) c.device) c)

  wait-SamePager : (c : Console Device) → SamePager c (pager_wait terminal c)
  unfolding pager_wait
  wait-SamePager c =
      let one = record c { pager_busy = true } in
      let two = console_write_raw terminal (codes "-- more / mas: Enter --") one in
      let s : SamePager c (console_read_line terminal 8 two).1 =
        then_same c two _
          (then_same c one two
            (record { enabled = refl; limit = refl; reader = refl; writer = refl })
            (raw-SamePager (codes "-- more / mas: Enter --") one))
          (read_line-SamePager 8 two) in
      record { enabled = s.enabled; limit = s.limit; reader = s.reader; writer = s.writer }

  -- what the writer that is bound makes of a text
  pub shown : Console Device → Bytes → Device → Device
  shown c text d =
      if c.raw_writer_bound
      then terminal.raw_writer text d
      else if c.writer_bound
      then terminal.writer text d
      else d

  -- The device behind the question of the pager and a line of at most seven characters that answers
  -- it; the colours of the input and of the prompt are taken back after it.
  pub asked_device : Console Device → Device
  unfolding shown
  asked_device c =
      let reset = 27 ∷ codes "[0m" in
      let read = (terminal.reader 8 (shown c (codes "-- more / mas: Enter --") c.device)).1 in
      if c.ansi_enabled then shown c reset (shown c reset read) else read

  device-pager_wait :
      (c : Console Device) (raw writer ansi reader : Bool)
      → reader ≡ true
      → let k = record c {
        raw_writer_bound = raw;
        writer_bound = writer;
        ansi_enabled = ansi;
        reader_bound = reader;
      } in
        (pager_wait terminal k).device ≡ asked_device k
  unfolding pager_wait asked_device console_write_raw console_read_line after_read
      console_reset_style console_input_style_end console_prompt_end
  device-pager_wait c true writer true true h = refl
  device-pager_wait c true writer false true h = refl
  device-pager_wait c false true true true h = refl
  device-pager_wait c false true false true h = refl
  device-pager_wait c false false true true h = refl
  device-pager_wait c false false false true h = refl
  device-pager_wait c raw writer ansi false h = absurd (cc h)

  -- The pager is on and idle, a reader is bound, and the page that is being shown is not full.
  pub record IsPaging (c : Console Device) : Type 0 where
    pub enabled : c.pager_enabled ≡ true
    pub idle : c.pager_busy ≡ false
    pub reader : c.reader_bound ≡ true
    pub room : c.pager_line_count < c.pager_line_limit
    pub small : c.pager_line_limit < 2 ^ 64

  -- What a line does to the count of the page.
  pub record IsCounted (c c' : Console Device) : Type 0 where
    pub paging : IsPaging c'
    pub limit : c'.pager_line_limit ≡ c.pager_line_limit
    pub count :
        c'.pager_line_count
        ≡ (if ltb (c.pager_line_count + 1) c.pager_line_limit then c.pager_line_count + 1 else 0)
    pub device :
        c'.device
        ≡ (if ltb (c.pager_line_count + 1) c.pager_line_limit then c.device else asked_device c)

  next_count : (n limit : ℕ) → n < limit → limit < 2 ^ 64 → (n + 1) % 2 ^ 64 ≡ n + 1
  next_count n limit room small = omega (arith, room, small)

  -- With paging on, every line moves the count of the page by one, up to the limit, and leaves the
  -- device as it is; the line that fills the page writes the question of the pager to the device and
  -- reads the answer from it, and the count is then zero. The pager stays on and idle, and the page is
  -- never full between two lines.
  pub pager_after_line-IsCounted :
      (c : Console Device) → IsPaging c → IsCounted c (console_pager_after_line terminal c)
  unfolding console_pager_after_line pager_wait asked_device
  pager_after_line-IsCounted c p =
      let counted = record c { pager_line_count = (c.pager_line_count + 1) % 2 ^ 64 } in
      if_elim (IsCounted c) (not c.pager_enabled || (c.pager_busy || not c.reader_bound)) c _
        (λ off. cc (p.enabled, p.idle, p.reader, off))
        λ _.
          if_elim (IsCounted c) (ltb counted.pager_line_count c.pager_line_limit) counted
            (pager_wait terminal counted) (stays p) (waits p)
    where
      same_test :
          IsPaging c
          → ltb ((c.pager_line_count + 1) % 2 ^ 64) c.pager_line_limit
            ≡ ltb (c.pager_line_count + 1) c.pager_line_limit
      same_test p =
          ap (λ (n : ℕ). ltb n c.pager_line_limit)
            (next_count c.pager_line_count c.pager_line_limit p.room p.small)

      stays :
          IsPaging c
          → ltb ((c.pager_line_count + 1) % 2 ^ 64) c.pager_line_limit ≡ true
          → IsCounted c (record c { pager_line_count = (c.pager_line_count + 1) % 2 ^ 64 })
      stays p below = record {
        paging = record {
          enabled = p.enabled;
          idle = p.idle;
          reader = p.reader;
          room = ltb→lt _ _ below;
          small = p.small;
        };
        limit = refl;
        count =
            next_count c.pager_line_count c.pager_line_limit p.room p.small
            ∙ sym (
                ap (λ (b : Bool). if b then c.pager_line_count + 1 else 0)
                  (sym (same_test p) ∙ below));
        device =
            sym (
              ap (λ (b : Bool). if b then c.device else asked_device c)
                (sym (same_test p) ∙ below));
      }

      waits :
          IsPaging c
          → ltb ((c.pager_line_count + 1) % 2 ^ 64) c.pager_line_limit ≡ false
          → IsCounted c (
              pager_wait terminal
                (record c { pager_line_count = (c.pager_line_count + 1) % 2 ^ 64 }))
      waits p full =
          let s =
            wait-SamePager (record c { pager_line_count = (c.pager_line_count + 1) % 2 ^ 64 }) in
          record {
            paging = record {
              enabled = s.enabled ∙ p.enabled;
              idle = refl;
              reader = s.reader ∙ p.reader;
              room = omega (arith, p.room, s.limit);
              small = omega (arith, p.small, s.limit);
            };
            limit = s.limit;
            count = sym (
                ap (λ (b : Bool). if b then c.pager_line_count + 1 else 0)
                  (sym (same_test p) ∙ full));
            device =
                device-pager_wait
                  (record c { pager_line_count = (c.pager_line_count + 1) % 2 ^ 64 })
                  c.raw_writer_bound c.writer_bound c.ansi_enabled c.reader_bound p.reader
                ∙ sym (
                    ap (λ (b : Bool). if b then c.device else asked_device c)
                      (sym (same_test p) ∙ full));
          }
