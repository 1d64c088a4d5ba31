-- ===== src/Strings/Lines.antt =====
-- The lines that getline reads.
use hcl.Base.{ℕ, ◌≡◌, refl, true, List, [], ◌∷◌, ◌++◌, arith}
use hcl.Strings.{lacks, put_front, get_lines}

pub get_lines-append :
    (line rest : List ℕ)
    → lacks b'\n' line ≡ true
    → get_lines (line ++ b'\n' ∷ rest) ≡ line ∷ get_lines rest
unfolding get_lines lacks put_front
get_lines-append [] rest e = refl
get_lines-append (c ∷ s) rest e = ground (arith, get_lines-append s rest)
