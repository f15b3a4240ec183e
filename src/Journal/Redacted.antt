-- ===== src/Journal/Redacted.antt =====
-- What the journal keeps of a text that looks sensitive.
use vita_os.Prelude.{
  ℕ, ◌+◌, ◌≤◌, ◌<◌, Bool, true, false, not, ◌||◌, [], ◌∷◌, ◌≡◌, refl, sym, ap, ◌∙◌, codes, length,
  All, ltb, if◌then◌else◌, arith, Bool-cases, inl, inr, some,
}
use vita_os.Text.{Bytes, str_copy}
use vita_os.Storage.Host.{Host}
use vita_os.Storage.Files.{World}
use vita_os.Journal.{
  Journal, looks_sensitive, safe_char, sanitize_from, sanitize_text, add_safe, journal_add_event,
  session_journal_log_system,
}

-- 32 to 126
abbrev pub IsPrintable : Bytes → Type 0
IsPrintable s = All (λ c. (32 ≤ c) × (c ≤ 126)) s

safe_char_lem : (c : ℕ) → (32 ≤ safe_char c) × (safe_char c ≤ 126)
unfolding safe_char
safe_char_lem c = ground arith

sanitize_from-IsPrintable : (cap i : ℕ) (s : Bytes) → IsPrintable (sanitize_from cap i s)
unfolding sanitize_from
sanitize_from-IsPrintable cap i [] = tt
sanitize_from-IsPrintable cap i (c ∷ s) = elim (Bool-cases (ltb (i + 1) cap)) [
  | inl room ↦ rw room (safe_char_lem c, sanitize_from-IsPrintable cap (i + 1) s)
  | inr full ↦ rw full tt
]

length-sanitize_from : (cap i : ℕ) (s : Bytes) → i < cap → i + length (sanitize_from cap i s) < cap
unfolding sanitize_from
length-sanitize_from cap i [] h = omega arith
length-sanitize_from cap i (c ∷ s) h = ground (arith, length-sanitize_from cap (i + 1) s)

hidden : Bytes
hidden = codes "[redacted sensitive command]"

sanitize_sensitive :
    (s : Bytes) → looks_sensitive s ≡ true → sanitize_text s ≡ (str_copy [] 160 (some hidden), true)
unfolding sanitize_text hidden
sanitize_sensitive s h = rw h refl

hidden_copied : str_copy [] 160 (some hidden) ≡ hidden
unfolding str_copy hidden
hidden_copied = refl

-- What the journal records of a text is printable and shorter than 160 bytes, whatever the text is.
pub sanitize_text-IsPrintable :
    (s : Bytes) → IsPrintable (sanitize_text s).0 × (length (sanitize_text s).0 < 160)
sanitize_text-IsPrintable s = elim (Bool-cases (looks_sensitive s)) [
  | inl h ↦ rw (sanitize_sensitive s h, hidden_copied) (unfold hidden in omega arith)
  | inr h ↦
      unfold sanitize_text in
      rw h (
        sanitize_from-IsPrintable 160 0 s,
        omega (arith, length-sanitize_from 160 0 s (omega arith)),
      )
]

module _ (host : Host) where
  same_event :
      (type a b : Bytes) (check : Bool) (j : Journal) (w : World host.Fs)
      → sanitize_text a ≡ sanitize_text b
      → journal_add_event host type a check j w ≡ journal_add_event host type b check j w
  unfolding journal_add_event
  same_event type a b check j w e =
      ap
        (λ (r : Bytes × Bool).
          if not j.initialized || not j.active
          then (j, w)
          else add_safe host type (r.0, if check then r.1 else false) j w)
        e

  -- Any two texts that look sensitive are recorded alike, under the same type of event.
  pub log_system_blind :
      (type a b : Bytes) (j : Journal) (w : World host.Fs)
      → looks_sensitive a ≡ true
      → looks_sensitive b ≡ true
      → session_journal_log_system host type a j w ≡ session_journal_log_system host type b j w
  unfolding session_journal_log_system
  log_system_blind type a b j w ha hb =
      same_event type a b true j w (sanitize_sensitive a ha ∙ sym (sanitize_sensitive b hb))
