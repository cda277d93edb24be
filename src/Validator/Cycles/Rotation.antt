-- ===== src/Validator/Cycles/Rotation.antt =====
-- Closed walks can be started at each of their nodes.
use mathlib.Core.List.{Memᴰ}
use essentials_calls.Base.{
  String, ◌≡◌, refl, List, [], ◌∷◌, ◌++◌, map, sym, ap, subst, All, any, any-append, ◌||◌, ◌∙◌,
  Bool, true, false, length, suc,
}
use essentials_calls.Model.{Edge}
use essentials_calls.Validator.Cycles.Invariant.{Chain}

abbrev pub sources : List Edge → List String
sources c = map (λ (e : Edge). e.source) c

pub sources-append : (ls rs : List Edge) → sources (ls ++ rs) ≡ sources ls ++ sources rs
sources-append [] rs = refl
sources-append (e ∷ ls) rs = ap (λ l. e.source ∷ l) (sources-append ls rs)

pub length-sources : (c : List Edge) → length (sources c) ≡ length c
length-sources [] = refl
length-sources (e ∷ c) = ap suc (length-sources c)

Chain-split :
    (edges : List Edge) (from to : String) (ls rs : List Edge)
    → Chain edges from to (ls ++ rs)
    → (mid : String) × Chain edges from mid ls × Chain edges mid to rs
Chain-split edges from to [] rs c = (from, refl, c)
Chain-split edges from to (e ∷ ls) rs c =
    let (mid, a, b) = Chain-split edges e.target to ls rs c.2 in (mid, (c.0, c.1, a), b)

Chain-append :
    (edges : List Edge) (from mid to : String) (ls rs : List Edge)
    → Chain edges from mid ls
    → Chain edges mid to rs
    → Chain edges from to (ls ++ rs)
Chain-append edges from mid to [] rs a b = subst (λ m. Chain edges m to rs) (sym a) b
Chain-append edges from mid to (e ∷ ls) rs a b =
    (a.0, a.1, Chain-append edges e.target mid to ls rs a.2 b)

-- A closed walk, started at one of its edges.
pub Chain-rotate :
    (edges : List Edge) (start : String) (ls rs : List Edge) (e : Edge)
    → Chain edges start start (ls ++ e ∷ rs)
    → Chain edges e.target e.source (rs ++ ls)
Chain-rotate edges start ls rs e c =
    let (mid, a, b) = Chain-split edges start start ls (e ∷ rs) c in
    Chain-append edges e.target start e.source rs ls b.2
      (subst (λ m. Chain edges start m ls) (sym b.0) a)

pub Chain-All :
    (edges : List Edge) (from to : String) (c : List Edge)
    → Chain edges from to c
    → All (λ e. Memᴰ e edges) c
Chain-All edges from to [] c = tt
Chain-All edges from to (e ∷ es) c = (c.1, Chain-All edges e.target to es c.2)

-- What holds of the sources of a walk and of its end holds of its targets.
pub Chain-targets :
    (edges : List Edge) (Q : String → Type 0) (from to : String) (c : List Edge)
    → Chain edges from to c
    → All (λ e. Q e.source) c
    → Q to
    → All (λ e. Q e.target) c
Chain-targets edges Q from to [] c q last = tt
Chain-targets edges Q from to (e ∷ []) c q last = (subst Q (sym c.2) last, tt)
Chain-targets edges Q from to (e ∷ f ∷ es) c q last =
    (subst Q c.2.0 q.1.0, Chain-targets edges Q e.target to (f ∷ es) c.2 q.1 last)

pub any-swap : (p : Edge → Bool) (ls rs : List Edge) → any p (ls ++ rs) ≡ any p (rs ++ ls)
any-swap p ls rs = any-append p ls rs ∙ or_swap (any p ls) (any p rs) ∙ sym (any-append p rs ls)
  where
    or_swap : (a b : Bool) → (a || b) ≡ (b || a)
    or_swap true true = refl
    or_swap true false = refl
    or_swap false true = refl
    or_swap false false = refl
