-- ===== src/Dictionary/Download.antt =====
-- src/dictionary.rs: the retries of a download.
use rustspell_server.Base.{ℕ, suc, ◌+◌, String, ◌≡◌}
use rustspell_server.Dictionary.{Fetched, received, transient}

-- From try `n` on, with `left` tries to go, `d` arrives: every try before is transient.
pub data Arrives (tries : ℕ → Fetched) (d : String) : ℕ → ℕ → Type 0 where
  now : {n left : ℕ} → tries n ≡ received d → Arrives tries d n (suc left)
  later :
      {n left : ℕ}
      → tries n ≡ transient
      → Arrives tries d (n + 1) left
      → Arrives tries d n (suc left)
