-- ===== src/Base/Errors.antt =====
-- Exceptions as values. The message is kept, since callers tell errors apart by it.
use xia_pl.Base.{ℕ, String, Bool, true, false, List, ◌≡◌, refl}

-- A part of a message that is put together: a literal, the bytes of a text, or std::to_string.
pub data Piece : Type 0 where
  lit : String → Piece
  bytes : List ℕ → Piece
  num : ℕ → Piece

pub data Exception : Type 0 where
  invalid_argument runtime_error : String → Exception
  invalid_argument_of runtime_error_of : List Piece → Exception

-- What a call that can throw comes to.
pub data Result {ℓ} (A : Type ℓ) : Type ℓ where
  ok : A → Result A
  err : Exception → Result A

-- `if (test) throw e;`
abbrev pub throw_if : Bool → Exception → Result (Unit {0})
throw_if true e = err e
throw_if false e = ok tt

-- An exception passes over what follows it.
infixl 5 ◌>>◌
abbrev pub ◌>>◌ {κ} : {B : Type κ} → Result (Unit {0}) → Result B → Result B
err e >> next = err e
ok _ >> next = next

infixl 5 ◌>>=◌
abbrev pub ◌>>=◌ {κ ι} : {B : Type κ} {C : Type ι} → Result B → (B → Result C) → Result C
err e >>= rest = err e
ok b >>= rest = rest b

-- What a chain of calls that returns has come through.
pub bind_ok {κ ι} :
    {B : Type κ} {C : Type ι} (r : Result B) (rest : B → Result C) (c : C)
    → (r >>= rest ≡ ok c)
    → (b : B) × (r ≡ ok b) × (rest b ≡ ok c)
bind_ok (ok b) rest c e = (b, refl, e)
bind_ok (err x) rest c e = cc

pub seq_ok {κ} :
    {B : Type κ} (r : Result (Unit {0})) (next : Result B) (b : B)
    → (r >> next ≡ ok b)
    → (r ≡ ok tt) × (next ≡ ok b)
seq_ok (ok tt) next b e = (refl, e)
seq_ok (err x) next b e = cc

pub throw_if_ok : (test : Bool) (x : Exception) → throw_if test x ≡ ok tt → test ≡ false
throw_if_ok true x e = cc
throw_if_ok false x e = refl

pub ok_inj {ℓ} : {A : Type ℓ} (a b : A) → ◌≡◌ {A = Result A} (ok a) (ok b) → a ≡ b
ok_inj a b e = cc
