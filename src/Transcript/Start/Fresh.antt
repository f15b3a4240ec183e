-- ===== src/Transcript/Start/Fresh.antt =====
-- The number of a new session.
use vita_os.Prelude.{
  ℕ, zero, suc, ◌+◌, ◌/◌, ◌≤◌, ◌<◌, Bool, true, false, not, none, [], ◌∷◌, ◌≡◌, ◌≢◌, refl, sym, ◌∙◌,
  codes, if_elim, arith, not-true, subst, ◌⊎◌, inl, inr,
}
use vita_os.Text.{Bytes, str_append, starts_with, str_eq}
use vita_os.Storage.Host.{Host}
use vita_os.Storage.Paths.{path_allowed, chars_allowed}
use vita_os.Storage.Files.{World, storage_read_text}
use vita_os.Storage.Files.RoundTrip.{content, storage_read_text-content}
use vita_os.Storage.Files.Reads.{
  Shows, storage_read_text-Shows, storage_read_text-none, storage_read_text-SameSwitches,
}
use vita_os.Transcript.Lines.{append_all, u6, digit}
use vita_os.Transcript.Start.{session_path, find_session}

chars_allowed-digit : (d : ℕ) (s : Bytes) → chars_allowed (digit d ∷ s) ≡ chars_allowed s
unfolding chars_allowed digit
chars_allowed-digit d s = ground arith

digits_allowed :
    (a b c d e f : ℕ) (s : Bytes)
    → chars_allowed (digit a ∷ digit b ∷ digit c ∷ digit d ∷ digit e ∷ digit f ∷ s)
      ≡ chars_allowed s
digits_allowed a b c d e f s =
    chars_allowed-digit a _
    ∙ chars_allowed-digit b _
    ∙ chars_allowed-digit c _
    ∙ chars_allowed-digit d _
    ∙ chars_allowed-digit e _
    ∙ chars_allowed-digit f s

session_path-allowed : (i : ℕ) → path_allowed (session_path i) ≡ true
unfolding path_allowed chars_allowed session_path append_all u6 str_append starts_with str_eq
session_path-allowed i =
    digits_allowed (i / 100000) (i / 10000) (i / 1000) (i / 100) (i / 10) i (codes ".txt")

module _ (host : Host) where
  -- `i` is the first number from `first` on, below `last`, whose session has no text file, or `last`
  -- where there is none.
  pub record IsFirstFree (first last : ℕ) (w : World host.Fs) (i : ℕ) : Type 0 where
    pub low : first ≤ i
    pub high : i ≤ last
    pub taken : (k : ℕ) → first ≤ k → k < i → content host w (session_path k) ≢ none
    pub free : i < last → content host w (session_path i) ≡ none

  first_or_later : (a k : ℕ) → a ≤ k → (a ≡ k) ⊎ (a + 1 ≤ k)
  first_or_later a k h = ground arith

  skip_taken :
      (first last i : ℕ) (w w' : World host.Fs)
      → ((path : Bytes) → content host w' path ≡ content host w path)
      → content host w (session_path first) ≢ none
      → IsFirstFree (first + 1) last w' i
      → IsFirstFree first last w i
  skip_taken first last i w w' same here r = record {
    low = omega (arith, r.low);
    high = r.high;
    taken = λ k low high. elim (first_or_later first k low) [
      | inl e ↦ subst (λ (m : ℕ). content host w (session_path m) ≢ none) e here
      | inr later ↦ λ none_there. r.taken k later high (same (session_path k) ∙ none_there)
    ];
    free = λ below. sym (same (session_path i)) ∙ r.free below;
  }

  -- The search for a session number stops at the first number below 999999 whose text file does not
  -- exist, and every number before it has one; it runs out only when all of them have one.
  pub find_session-IsFirstFree :
      (rounds first : ℕ) (w : World host.Fs)
      → w.storage.initialized ≡ true
      → IsFirstFree first (first + rounds) w (find_session host rounds first w).0
  unfolding find_session
  find_session-IsFirstFree zero first w on = record {
    low = omega arith;
    high = omega arith;
    taken = λ k low high. absurd (omega (arith, low, high));
    free = λ below. absurd (omega (arith, below));
  }
  find_session-IsFirstFree (suc rounds) first w on =
      let read = storage_read_text host (session_path first) [] 8 w in
      if_elim P (not read.0.0) (first, read.1) (find_session host rounds (first + 1) read.1)
        (λ missing. stop (
          storage_read_text-none host (session_path first) [] 8 w on refl
            (session_path-allowed first) (missed _ missing)))
        λ found.
          skip_taken first _ _ w read.1
            (λ path. storage_read_text-content host (session_path first) [] path 8 w)
            (there (storage_read_text-Shows host (session_path first) [] 8 w (not-true _ found)))
            (subst
              (λ (last : ℕ).
                IsFirstFree (first + 1) last read.1 (find_session host rounds (first + 1) read.1).0)
              (omega arith)
              (find_session-IsFirstFree rounds (first + 1) read.1 (
                (storage_read_text-SameSwitches host (session_path first) [] 8 w).initialized
                ∙ on)))
    where
      P : ℕ × World host.Fs → Type 0
      P r = IsFirstFree first (first + suc rounds) w r.0

      stop : content host w (session_path first) ≡ none → P (first, w)
      stop h = record {
        low = omega arith;
        high = omega arith;
        taken = λ k low high. absurd (omega (arith, low, high));
        free = λ below. h;
      }

      missed : (b : Bool) → not b ≡ true → b ≡ false
      missed true h = cc
      missed false h = refl

      there :
          {text : Bytes}
          → Shows host (session_path first) text 8 w
          → content host w (session_path first) ≢ none
      there s gone = absurd (cc (s.there, gone))
