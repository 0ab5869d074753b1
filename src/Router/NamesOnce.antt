-- ===== src/Router/NamesOnce.antt =====
-- Sorting variables by name, where each name stands once: any order of them gives one list.
use bb_action_router.Base.{
  same, same_iff, text_lt_asym, text_lt_total, text_lt_neg_trans, insert_by, sort_by, ◌≡◌, refl, ap,
  subst, ◌∙◌, Bool, false, List, [], ◌∷◌, ◌++◌, arith, All, All-filter, All-append, same_comm,
  filter,
}
use mathlib.Core.List.{Permᴰ}
use mathlib.Core.List.{Perm}
use mathlib.Core.Logic.{∥∥₁_elim}
use bb_action_router.Reapi.{Variable}
use bb_action_router.Router.Pipeline.{variable_lt}

pub insert_by-commutes :
    (a b : Variable) (l : List Variable)
    → same a.name b.name ≡ false
    → insert_by variable_lt a (insert_by variable_lt b l)
      ≡ insert_by variable_lt b (insert_by variable_lt a l)
unfolding insert_by
insert_by-commutes a b [] d =
    ground (arith, text_lt_total a.name b.name, text_lt_asym a.name b.name, same_iff a.name b.name)
insert_by-commutes a b (x ∷ l) d = ground (
  arith,
  insert_by-commutes a b l d,
  text_lt_total a.name b.name,
  text_lt_asym a.name b.name,
  text_lt_neg_trans x.name b.name a.name,
  text_lt_neg_trans x.name a.name b.name,
)

-- No two variables have one name.
abbrev pub NamesOnce : List Variable → Type 0
NamesOnce [] = Unit
NamesOnce (v ∷ vs) = All (λ u. same v.name u.name ≡ false) vs × NamesOnce vs

All-Perm : (P : Variable → Type 0) {xs ys : List Variable} → Permᴰ xs ys → All P xs → All P ys
All-Perm P Permᴰ.nil h = tt
All-Perm P (Permᴰ.cons e p) h = (subst P e h.0, All-Perm P p h.1)
All-Perm P (Permᴰ.swap e f) h = (subst P f h.1.0, (subst P e h.0, h.1.1))
All-Perm P (Permᴰ.trans p q) h = All-Perm P q (All-Perm P p h)

NamesOnce-Perm : {xs ys : List Variable} → Permᴰ xs ys → NamesOnce xs → NamesOnce ys
NamesOnce-Perm Permᴰ.nil h = tt
NamesOnce-Perm (Permᴰ.cons {a} {l₂ = ys} e p) h = (
  subst (λ (v : Variable). All (λ (u : Variable). same v.name u.name ≡ false) ys) e
      (All-Perm (λ u. same a.name u.name ≡ false) p h.0),
  NamesOnce-Perm p h.1,
)
NamesOnce-Perm (Permᴰ.swap {a} {b} {a'} {b'} {l} e f) h = (
  (
    ground (arith, e, f, h.0.0, same_comm a.name b.name),
    subst (λ (v : Variable). All (λ (u : Variable). same v.name u.name ≡ false) l) f h.1.0,
  ),
  (subst (λ (v : Variable). All (λ (u : Variable). same v.name u.name ≡ false) l) e h.0.1, h.1.1),
)
NamesOnce-Perm (Permᴰ.trans p q) h = NamesOnce-Perm q (NamesOnce-Perm p h)

-- Where each name stands once, the order in which variables are sorted in does not matter.
sort-Permᴰ :
    {xs ys : List Variable}
    → Permᴰ xs ys
    → NamesOnce xs
    → sort_by variable_lt xs ≡ sort_by variable_lt ys
unfolding sort_by
sort-Permᴰ Permᴰ.nil h = refl
sort-Permᴰ (Permᴰ.cons {a} {l₂ = ys} e p) h =
    ap (insert_by variable_lt a) (sort-Permᴰ p h.1)
    ∙ ap (λ v. insert_by variable_lt v (sort_by variable_lt ys)) e
sort-Permᴰ (Permᴰ.swap {a} {b} {a'} {b'} {l} e f) h =
    insert_by-commutes a b (sort_by variable_lt l) h.0.0
    ∙ ap (λ v. insert_by variable_lt v (insert_by variable_lt a (sort_by variable_lt l))) f
    ∙ ap (λ v. insert_by variable_lt a' (insert_by variable_lt v (sort_by variable_lt l))) e
sort-Permᴰ (Permᴰ.trans p q) h = sort-Permᴰ p h ∙ sort-Permᴰ q (NamesOnce-Perm p h)

variables_set : IsSet (List Variable)
variables_set = hlevel

pub sort-Perm :
    {xs ys : List Variable}
    → Perm xs ys
    → NamesOnce xs
    → sort_by variable_lt xs ≡ sort_by variable_lt ys
sort-Perm {xs} {ys} p h =
    ∥∥₁_elim p (variables_set (sort_by variable_lt xs) (sort_by variable_lt ys))
      (λ d. sort-Permᴰ d h)

pub NamesOnce-append :
    (xs ys : List Variable)
    → NamesOnce xs
    → NamesOnce ys
    → All (λ x. All (λ y. same x.name y.name ≡ false) ys) xs
    → NamesOnce (xs ++ ys)
NamesOnce-append [] ys hx hy apart = hy
NamesOnce-append (x ∷ xs) ys hx hy apart = (
  All-append (λ y. same x.name y.name ≡ false) xs ys hx.0 apart.0,
  NamesOnce-append xs ys hx.1 hy apart.1,
)

pub NamesOnce-filter :
    (p : Variable → Bool) (vs : List Variable) → NamesOnce vs → NamesOnce (filter p vs)
NamesOnce-filter p [] h = tt
NamesOnce-filter p (v ∷ vs) h =
    ground (arith, NamesOnce-filter p vs h.1, All-filter (λ u. same v.name u.name ≡ false) p vs h.0)
