-- ===== src/Examples/Capture.antt =====
-- An encoding of bytes as letters, and a file.
use kluster_one.Prelude.{ℕ, zero, suc, [], ◌∷◌, Bytes}

-- n is written as n letters and a stop.
abbrev pub letters : ℕ → Bytes → Bytes
letters zero s = b'.' ∷ s
letters (suc n) s = b'a' ∷ letters n s

abbrev pub unary : Bytes → Bytes
unary [] = []
unary (n ∷ s) = letters n (unary s)

abbrev pub pulled_file : Bytes
pulled_file = 3 ∷ 1 ∷ []
