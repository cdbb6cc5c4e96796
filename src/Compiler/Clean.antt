-- ===== src/Compiler/Clean.antt =====
-- Two promises of a function of the compiler: `Always P`, that P holds of the result, and `Clean P`, that P holds of the result if no
-- diagnostic is reported. Both hold of a chain of steps if they hold of each step.
use product_feed_protocol.Prelude.{
  String, ◌≡◌, refl, Bool, true, false, none, some, List, [], ◌∷◌, ◌++◌,
}
use product_feed_protocol.Compiler.{Diag, Compiled, after, ◌>>=◌, refuse, refuse_if}

module _ {A : Type 0} where
  abbrev pub Always : (A → Type 0) → Compiled A → Type 0
  Always P none = Unit
  Always P (some (a, ds)) = P a

  abbrev pub Clean : (A → Type 0) → Compiled A → Type 0
  Clean P none = Unit
  Clean P (some (a, ds)) = ds ≡ [] → P a

append-nil_left : (ds es : List Diag) → ds ++ es ≡ [] → (ds ≡ []) × (es ≡ [])
append-nil_left [] es h = (refl, h)
append-nil_left (d ∷ ds) es h = cc

module _ {A B : Type 0} (P : A → Type 0) (Q : B → Type 0) where
  Always-after : (ds : List Diag) (m : Compiled B) → Always Q m → Always Q (after ds m)
  Always-after ds none h = tt
  Always-after ds (some (b, es)) h = h

  pub Always-bind :
      (m : Compiled A) (f : A → Compiled B)
      → Always P m
      → ((a : A) → P a → Always Q (f a))
      → Always Q (m >>= f)
  Always-bind none f h k = tt
  Always-bind (some (a, ds)) f h k = Always-after ds (f a) (k a h)

  Clean-after : (ds : List Diag) (m : Compiled B) → (ds ≡ [] → Clean Q m) → Clean Q (after ds m)
  Clean-after ds none h = tt
  Clean-after ds (some (b, es)) h =
      λ e. let (nil_left, nil_right) = append-nil_left ds es e in h nil_left nil_right

  pub Clean-bind :
      (m : Compiled A) (f : A → Compiled B)
      → Clean P m
      → ((a : A) → P a → Clean Q (f a))
      → Clean Q (m >>= f)
  Clean-bind none f h k = tt
  Clean-bind (some (a, ds)) f h k = Clean-after ds (f a) (λ e. k a (h e))

module _ {A : Type 0} (P Q : A → Type 0) where
  pub Clean-weaken : (m : Compiled A) → Clean P m → ((a : A) → P a → Q a) → Clean Q m
  Clean-weaken none h k = tt
  Clean-weaken (some (a, ds)) h k = λ e. k a (h e)

  pub Clean-both : (m : Compiled A) → Clean P m → Clean Q m → Clean (λ a. P a × Q a) m
  Clean-both none h k = tt
  Clean-both (some (a, ds)) h k = λ e. (h e, k e)

  pub Always-weaken : (m : Compiled A) → Always P m → ((a : A) → P a → Q a) → Always Q m
  Always-weaken none h k = tt
  Always-weaken (some (a, ds)) h k = k a h

module _ {A : Type 0} (P : A → Type 0) where
  pub Clean-refuse : (a : A) (code path message : String) → Clean P (refuse a code path message)
  Clean-refuse a code path message = λ e. cc

  pub Clean-Always : (m : Compiled A) → Always P m → Clean P m
  Clean-Always none h = tt
  Clean-Always (some (a, ds)) h = λ e. h

pub Clean-refuse_if :
    (b : Bool) (code path message : String) → Clean (λ _. b ≡ false) (refuse_if b code path message)
Clean-refuse_if true code path message = λ e. cc
Clean-refuse_if false code path message = λ e. refl

-- Nothing is asked of the result.
abbrev pub Any : {A : Type 0} → A → Type 0
Any a = Unit

pub Always-Any : {A : Type 0} (m : Compiled A) → Always Any m
Always-Any none = tt
Always-Any (some (a, ds)) = tt

pub Clean-Any : {A : Type 0} (m : Compiled A) → Clean Any m
Clean-Any none = tt
Clean-Any (some (a, ds)) = λ e. tt
