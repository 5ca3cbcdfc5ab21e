-- ===== src/Tooling/Files/Read/Given.antt =====
-- The text that a read of crates/mahi-tooling/src/tools/file.rs gives.
use mahi_ai.Prelude.{
  ℕ, ◌≤◌, ◌≡◌, refl, sym, Bool, true, false, [], append-nil, Text, ltb, if◌then◌else◌, arith,
}
use mahi_ai.Tooling.Files.Bytes.{byte_len, back_to_boundary, truncate}
use mahi_ai.Tooling.Files.Bytes.Cut.{Fits, cut-Fits}
use mahi_ai.Tooling.Files.Read.{body_of}

-- The text given of a file's content is a first part of it of at most `cap` bytes, and the first
-- character that is left out would not fit; a content of at most `cap` bytes is given whole.
pub body_of-Fits :
    (cap : ℕ) (content : Text)
    → Fits content (body_of cap content) cap
      × (byte_len content ≤ cap → body_of cap content ≡ content)
body_of-Fits cap content = go (ltb cap (byte_len content)) refl
  where
    go :
        (b : Bool)
        → ltb cap (byte_len content) ≡ b
        → Fits content (if b then truncate content (back_to_boundary content cap) else content) cap
          × (byte_len content ≤ cap
              → (if b then truncate content (back_to_boundary content cap) else content) ≡ content)
    go true h = (cut-Fits content cap, λ short. absurd (ground arith))
    go false h =
        (([], sym (append-nil content), ground arith, λ c cs e. absurd (cc e)), λ short. refl)
