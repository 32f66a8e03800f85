-- ===== src/Perfmgr/SessionTaskMap/Links.antt =====
-- How often a task is linked to a session entry, and what linking and unlinking do to that number.
use hardware_voltage_interfa.Base.{
  ℕ, ◌+◌, ◌-◌, ◌≡◌, ◌≢◌, refl, sym, ap, true, false, not, ◌&&◌, none, some, List, [], ◌∷◌, ◌++◌,
  arith, ◌==◌, if◌then◌else◌, Option-cases, Bool-cases, ==_iff, inl, inr,
}
use hardware_voltage_interfa.Base.Dict.{
  Dict, find, erase, Distinct, find-assign, find-erase_ne, find-erase_self, assign-Distinct,
  erase-Distinct,
}
use hardware_voltage_interfa.Perfmgr.SessionTaskMap.{
  entries_of, link, link_all, holds, erase_first, put_back, unlink, unlink_all,
}

unfoldable pub count : ℕ → List ℕ → ℕ
count p [] = 0
count p (q ∷ qs) = (if q == p then 1 else 0) + count p qs

-- How often the task's vector holds the entry.
abbrev pub links : Dict (List ℕ) → ℕ → ℕ → ℕ
links m task p = count p (entries_of (find task m))

-- No task has an empty vector.
abbrev pub NoEmpty : Dict (List ℕ) → Type 0
NoEmpty m = (task : ℕ) → find task m ≢ some []

pub count-append : (p : ℕ) (xs ys : List ℕ) → count p (xs ++ ys) ≡ count p xs + count p ys
unfolding count
count-append p [] ys = omega arith
count-append p (x ∷ xs) ys = omega (arith, count-append p xs ys)

count_one : (p q : ℕ) → count p (q ∷ []) ≡ (if q == p then 1 else 0)
unfolding count
count_one p q = ground arith

count-erase_first :
    (p q : ℕ) (xs : List ℕ) → count p (erase_first q xs) ≡ count p xs - (if q == p then 1 else 0)
unfolding count erase_first
count-erase_first p q [] = ground arith
count-erase_first p q (x ∷ xs) = ground (arith, count-erase_first p q xs)

count_not_held : (p : ℕ) (xs : List ℕ) → holds p xs ≡ false → count p xs ≡ 0
unfolding count holds
count_not_held p [] h = refl
count_not_held p (x ∷ xs) h = ground (arith, count_not_held p xs)

pub links-link :
    (q : ℕ) (m : Dict (List ℕ)) (u t p : ℕ)
    → links (link q m u) t p ≡ links m t p + (if u == t && q == p then 1 else 0)
unfolding link
links-link q m u t p = ground (
  arith,
  find-assign u t (entries_of (find u m) ++ q ∷ []) m,
  count-append p (entries_of (find u m)) (q ∷ []),
  count_one p q,
)

pub links-link_all :
    (q : ℕ) (us : List ℕ) (m : Dict (List ℕ)) (t p : ℕ)
    → links (link_all q m us) t p ≡ links m t p + (if q == p then count t us else 0)
unfolding link_all count
links-link_all q [] m t p = ground arith
links-link_all q (u ∷ us) m t p =
    ground (arith, links-link_all q us (link q m u) t p, links-link q m u t p)

links-put_back :
    (u : ℕ) (qs : List ℕ) (m : Dict (List ℕ)) (t p : ℕ)
    → Distinct m
    → links (put_back u qs m) t p ≡ (if u == t then count p qs else links m t p)
unfolding count
links-put_back u [] m t p d = ground (arith, find-erase_self u m d, find-erase_ne u t m)
links-put_back u (q ∷ qs) m t p d = ground (arith, find-assign u t (q ∷ qs) m)

find_same : (u t : ℕ) (m : Dict (List ℕ)) → (u == t) ≡ true → find t m ≡ find u m
find_same u t m h = ap (λ x. find x m) (sym ((==_iff u t).0 h))

unlink_absent :
    (q : ℕ) (m : Dict (List ℕ)) (u t p : ℕ)
    → find u m ≡ none
    → links m t p ≡ links m t p - (if u == t && q == p then 1 else 0)
unfolding count
unlink_absent q m u t p e = ground (arith, find_same u t m)

unlink_present :
    (q : ℕ) (m : Dict (List ℕ)) (u t p : ℕ) (ps : List ℕ)
    → Distinct m
    → find u m ≡ some ps
    → links (if not (holds q ps) then m else put_back u (erase_first q ps) m) t p
      ≡ links m t p - (if u == t && q == p then 1 else 0)
unlink_present q m u t p ps d e = ground (
  arith,
  find_same u t m,
  links-put_back u (erase_first q ps) m t p d,
  count-erase_first p q ps,
  count_not_held q ps,
  same_count,
)
  where
    same_count : (q == p) ≡ true → count q ps ≡ count p ps
    same_count h = ap (λ x. count x ps) ((==_iff q p).0 h)

pub links-unlink :
    (q : ℕ) (m : Dict (List ℕ)) (u t p : ℕ)
    → Distinct m
    → links (unlink q m u) t p ≡ links m t p - (if u == t && q == p then 1 else 0)
unfolding unlink
links-unlink q m u t p d = elim (Option-cases (find u m)) [
  | inl e ↦ rw (e, unlink) (unlink_absent q m u t p e)
  | inr (ps, e) ↦ rw (e, unlink) (unlink_present q m u t p ps d e)
]

put_back-Distinct :
    (u : ℕ) (qs : List ℕ) (m : Dict (List ℕ)) → Distinct m → Distinct (put_back u qs m)
put_back-Distinct u [] m d = erase-Distinct u m d
put_back-Distinct u (q ∷ qs) m d = assign-Distinct u (q ∷ qs) m d

pub unlink-Distinct : (q : ℕ) (m : Dict (List ℕ)) (u : ℕ) → Distinct m → Distinct (unlink q m u)
unfolding unlink
unlink-Distinct q m u d = elim (Option-cases (find u m)) [
  | inl e ↦ rw (e, unlink) d
  | inr (ps, e) ↦ rw (e, unlink) (ground (arith, put_back-Distinct u (erase_first q ps) m d))
]

pub unlink_all-Distinct :
    (q : ℕ) (us : List ℕ) (m : Dict (List ℕ)) → Distinct m → Distinct (unlink_all q m us)
unfolding unlink_all
unlink_all-Distinct q [] m d = d
unlink_all-Distinct q (u ∷ us) m d =
    unlink_all-Distinct q us (unlink q m u) (unlink-Distinct q m u d)

pub link_all-Distinct :
    (q : ℕ) (us : List ℕ) (m : Dict (List ℕ)) → Distinct m → Distinct (link_all q m us)
unfolding link_all link
link_all-Distinct q [] m d = d
link_all-Distinct q (u ∷ us) m d = link_all-Distinct q us (link q m u) (assign-Distinct u _ m d)

pub links-unlink_all :
    (q : ℕ) (us : List ℕ) (m : Dict (List ℕ)) (t p : ℕ)
    → Distinct m
    → links (unlink_all q m us) t p ≡ links m t p - (if q == p then count t us else 0)
unfolding unlink_all count
links-unlink_all q [] m t p d = ground arith
links-unlink_all q (u ∷ us) m t p d = ground (
  arith,
  links-unlink_all q us (unlink q m u) t p (unlink-Distinct q m u d),
  links-unlink q m u t p d,
)

-- Neither linking nor unlinking leaves a task with an empty vector.
link-NoEmpty : (q : ℕ) (m : Dict (List ℕ)) (u : ℕ) → NoEmpty m → NoEmpty (link q m u)
unfolding link
link-NoEmpty q m u h t e =
    append-ne-nil (entries_of (find u m)) q
      (ground (arith, h t, find-assign u t (entries_of (find u m) ++ q ∷ []) m))
  where
    append-ne-nil : (xs : List ℕ) (y : ℕ) → xs ++ y ∷ [] ≢ []
    append-ne-nil [] y = λ f. cc
    append-ne-nil (x ∷ xs) y = λ f. cc

pub link_all-NoEmpty :
    (q : ℕ) (us : List ℕ) (m : Dict (List ℕ)) → NoEmpty m → NoEmpty (link_all q m us)
unfolding link_all
link_all-NoEmpty q [] m h = h
link_all-NoEmpty q (u ∷ us) m h = link_all-NoEmpty q us (link q m u) (link-NoEmpty q m u h)

put_back-NoEmpty :
    (u : ℕ) (qs : List ℕ) (m : Dict (List ℕ)) → Distinct m → NoEmpty m → NoEmpty (put_back u qs m)
put_back-NoEmpty u [] m d h t =
    ground (arith, h t, find-erase_self u m d, find-erase_ne u t m, find_same u t (erase u m))
put_back-NoEmpty u (q ∷ qs) m d h t = ground (arith, h t, find-assign u t (q ∷ qs) m)

pub unlink-NoEmpty :
    (q : ℕ) (m : Dict (List ℕ)) (u : ℕ) → Distinct m → NoEmpty m → NoEmpty (unlink q m u)
unfolding unlink
unlink-NoEmpty q m u d h = elim (Option-cases (find u m)) [
  | inl e ↦ rw (e, unlink) h
  | inr (ps, e) ↦
      rw (e, unlink)
        (elim (Bool-cases (holds q ps)) [
          | inl held ↦ rw held (put_back-NoEmpty u (erase_first q ps) m d h)
          | inr not_held ↦ rw not_held h
        ])
]

pub unlink_all-NoEmpty :
    (q : ℕ) (us : List ℕ) (m : Dict (List ℕ)) → Distinct m → NoEmpty m → NoEmpty (unlink_all q m us)
unfolding unlink_all
unlink_all-NoEmpty q [] m d h = h
unlink_all-NoEmpty q (u ∷ us) m d h =
    unlink_all-NoEmpty q us (unlink q m u) (unlink-Distinct q m u d) (unlink-NoEmpty q m u d h)
