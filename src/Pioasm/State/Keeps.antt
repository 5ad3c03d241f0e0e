-- ===== src/Pioasm/State/Keeps.antt =====
-- Invariants of the actions of rp2/pioasm/pioasm_parser.c: a rule for each way to build an action.
use morelibc.Base.{◌≡◌, refl, Bool, true, false, Option, none, some, if◌then◌else◌}
use morelibc.Pioasm.Token.{Token}
use morelibc.Pioasm.State.{
  Parser, Outcome, done, failed, out_of_fuel, Action, pure, diverge, gets, modify, continue, ◌>>=◌,
  check, ignore,
}

-- `m` keeps `P`, however it ends.
pub record Keeps {A : Type 0} (P : Parser → Type 0) (m : Action A) : Type 0 where
  pub at : (p : Parser) → P p → P (m p).1

module _ (P : Parser → Type 0) {A : Type 0} where
  -- The test may use the state.
  pub if-keeps :
      (b : Bool) (m n : Action A) (p : Parser)
      → (b ≡ true → P (m p).1)
      → (b ≡ false → P (n p).1)
      → P ((if b then m else n) p).1
  if-keeps true m n p f g = f refl
  if-keeps false m n p f g = g refl

module _ {P : Parser → Type 0} {A : Type 0} where
  pub Keeps-pure : (a : A) → Keeps P (pure a)
  unfolding pure
  Keeps-pure a = record { at = λ p h. h }

  pub Keeps-diverge : Keeps P (diverge {A = A})
  unfolding diverge
  Keeps-diverge = record { at = λ p h. h }

  pub Keeps-gets : (f : Parser → A) → Keeps P (gets f)
  unfolding gets
  Keeps-gets f = record { at = λ p h. h }

  pub Keeps-if : (b : Bool) (m n : Action A) → Keeps P m → Keeps P n → Keeps P (if b then m else n)
  Keeps-if true m n km kn = km
  Keeps-if false m n km kn = kn

module _ {P : Parser → Type 0} {A B : Type 0} where
  pub Keeps-elim :
      (o : Option B) (m : Action A) (f : B → Action A)
      → Keeps P m
      → ((b : B) → Keeps P (f b))
      → Keeps P (elim o [ none ↦ m | some b ↦ f b ])
  Keeps-elim none m f km kf = km
  Keeps-elim (some b) m f km kf = kf b

module _ {P : Parser → Type 0} {A B : Type 0} where
  pub Keeps-continue :
      (r : Outcome A) (f : A → Action B) → ((a : A) → Keeps P (f a)) → Keeps P (continue r f)
  unfolding continue
  Keeps-continue (done a) f kf = kf a
  Keeps-continue (failed e) f kf = record { at = λ p h. h }
  Keeps-continue out_of_fuel f kf = record { at = λ p h. h }

  pub Keeps-bind :
      (m : Action A) (f : A → Action B) → Keeps P m → ((a : A) → Keeps P (f a)) → Keeps P (m >>= f)
  unfolding ◌>>=◌
  Keeps-bind m f km kf = record {
    at = λ p h. let (r, p') = m p in (Keeps-continue r f kf).at p' (km.at p h);
  }

  pub Keeps-gets-bind :
      (g : Parser → A) (f : A → Action B)
      → ((p : Parser) → P p → P (f (g p) p).1)
      → Keeps P (gets g >>= f)
  unfolding gets ◌>>=◌ continue
  Keeps-gets-bind g f kf = record { at = kf }

module _ {P : Parser → Type 0} where
  pub Keeps-check : (type : Token) → Keeps P (check type)
  unfolding check
  Keeps-check type = Keeps-gets _

  pub Keeps-ignore : (m : Action (Unit {0})) → Keeps P m → Keeps P (ignore m)
  unfolding ignore
  Keeps-ignore m km = record { at = km.at }

  pub Keeps-modify : (f : Parser → Parser) → ((p : Parser) → P p → P (f p)) → Keeps P (modify f)
  unfolding modify
  Keeps-modify f kf = record { at = kf }

pub ruleset keeps_rules = (
  Keeps-pure, Keeps-diverge, Keeps-gets, Keeps-if, Keeps-elim, Keeps-bind, Keeps-check,
  Keeps-ignore,
)
