-- ===== src/ContainerUtility/Removal.antt =====
-- containerutilityinterface.cpp: what a removal of old containers that ends without an exception
-- has done.
use mathlib.Core.Path.{subst}
use softwarecontainer.Common.{
  ◌≡◌, refl, ap, sym, ◌∙◌, arith, Bool, true, false, Option, none, some, List, [], ◌∷◌,
  if◌then◌else◌, not, All,
}
use softwarecontainer.Common.Bytes.{Bytes}
use softwarecontainer.Common.OrdMap.{OrdMap, bytes_key}
use softwarecontainer.Common.Throwing.{
  M, Result, ok, throw, after, Keeps, bind-Keeps, container_utility_error, first_ok,
}
use softwarecontainer.Lxc.{Lxc}
use softwarecontainer.ContainerUtility.{
  is_sc_name, container_map, stop_old, destroy_old, remove_old, remove_each, remove_listed,
  remove_old_containers,
}

either :
    {S A : Type 0} (P : S → Type 0) (b : Bool) (r t : Result A × S)
    → P r.1
    → P t.1
    → P (if b then r else t).1
either P true r t p q = p
either P false r t p q = q

-- The second part of a sequence that ends by a value starts where the first part has ended.
after_ok :
    {S B : Type 0} (r : Result (Unit {0}) × S) (k : M S B) (b : B)
    → (after r (λ _. k)).0 ≡ ok b
    → after r (λ _. k) ≡ k r.1
after_ok (ok u, s) k b h = refl
after_ok (throw e, s) k b h = cc

-- What stopping and destroying keep, the removal keeps.
module _ {S H : Type 0} (lxc : Lxc S H) (P : S → Type 0)
    (stop_keeps : (h : H) (s : S) → P s → P (lxc.stop h s).1)
    (destroy_keeps : (h : H) (s : S) → P s → P (lxc.destroy h s).1) where
  stop_old-Keeps : (h : H) → Keeps P (stop_old lxc h)
  unfolding stop_old
  stop_old-Keeps h s p =
      let q = stop_keeps h s p in
      let s' = (lxc.stop h s).1 in
      either P (not (lxc.is_running h s)) (ok tt, s)
        (if (lxc.stop h s).0 then (ok tt, s') else (throw container_utility_error, s')) p
        (either P (lxc.stop h s).0 (ok tt, s') (throw container_utility_error, s') q q)

  destroy_old-Keeps : (h : H) → Keeps P (destroy_old lxc h)
  unfolding destroy_old
  destroy_old-Keeps h s p = destroy_keeps h s p

  remove_old-Keeps : (c : Bytes × H) → Keeps P (remove_old lxc c)
  unfolding remove_old
  remove_old-Keeps (name, h) s p =
      either P (is_sc_name name) (after (stop_old lxc h s) (λ _. destroy_old lxc h)) (ok tt, s)
        (bind-Keeps P (stop_old lxc h) (λ _. destroy_old lxc h) (stop_old-Keeps h)
          (λ _. destroy_old-Keeps h) s p)
        p

  remove_each-Keeps : (m : OrdMap Bytes H) → Keeps P (remove_each lxc m)
  unfolding remove_each
  remove_each-Keeps [] s p = p
  remove_each-Keeps (c ∷ rest) s p =
      bind-Keeps P (remove_old lxc c) (λ _. remove_each lxc rest) (remove_old-Keeps c)
        (λ _. remove_each-Keeps rest) s p

-- `Gone` is what a `destroy` that works makes true of a container, and what stays true.
module _ {S H : Type 0} (lxc : Lxc S H) (Gone : H → S → Type 0)
    (destroy_gone : (h : H) (s : S) → (lxc.destroy h s).0 ≡ true → Gone h (lxc.destroy h s).1)
    (stop_keeps : (g h : H) (s : S) → Gone g s → Gone g (lxc.stop h s).1)
    (destroy_keeps : (g h : H) (s : S) → Gone g s → Gone g (lxc.destroy h s).1) where
  destroy_old-Gone :
      (h : H) (s : S) → (destroy_old lxc h s).0 ≡ ok tt → Gone h (destroy_old lxc h s).1
  unfolding destroy_old
  destroy_old-Gone h s done = destroy_gone h s (ground arith)

  remove_old-Gone :
      (name : Bytes) (h : H) (s : S)
      → is_sc_name name ≡ true
      → (remove_old lxc (name, h) s).0 ≡ ok tt
      → Gone h (remove_old lxc (name, h) s).1
  unfolding remove_old
  remove_old-Gone name h s sc done =
      let r = stop_old lxc h s in
      let found : (remove_old lxc (name, h) s) ≡ after r (λ _. destroy_old lxc h) = rw sc refl in
      let same = found ∙ after_ok r (destroy_old lxc h) tt (rw found at done) in
      rw same (destroy_old-Gone h r.1 (rw same at done))

  remove_each-Gone :
      (m : OrdMap Bytes H) (s : S)
      → (remove_each lxc m s).0 ≡ ok tt
      → All (λ c. is_sc_name c.0 ≡ true → Gone c.1 (remove_each lxc m s).1) m
  unfolding remove_each
  remove_each-Gone [] s done = tt
  remove_each-Gone ((name, h) ∷ rest) s done =
      let r = remove_old lxc (name, h) s in
      let same = sym (after_ok r (remove_each lxc rest) tt done) in
      let rest_done : (remove_each lxc rest r.1).0 ≡ ok tt = ap (λ q. q.0) same ∙ done in
      subst (λ q. All (λ c. is_sc_name c.0 ≡ true → Gone c.1 q.1) ((name, h) ∷ rest)) same
        (
          (λ sc.
              remove_each-Keeps lxc (Gone h) (stop_keeps h) (destroy_keeps h) rest r.1
                (remove_old-Gone name h s sc (first_ok r (remove_each lxc rest) tt done))),
          remove_each-Gone rest r.1 rest_done,
        )

  remove_listed-Gone :
      (listed : List (Bytes × H)) (q : Option (List (Bytes × H)) × S)
      → q.0 ≡ some listed
      → (remove_listed lxc q).0 ≡ ok tt
      → All
          (λ c. is_sc_name c.0 ≡ true → Gone c.1 (remove_listed lxc q).1)
          (container_map listed [])
  remove_listed-Gone listed (none, s) e done = cc
  remove_listed-Gone listed (some l, s) e done =
      let same : l ≡ listed = cc in rw (sym same) (remove_each-Gone (container_map l []) s done)

  -- A removal that ends without an exception leaves each listed container whose name matches
  -- SC-.* gone, if a `destroy` that works makes its container gone, and no `stop` or `destroy`
  -- brings a container back.
  pub remove_old_containers-Gone :
      (list : Bytes → S → Option (List (Bytes × H)) × S) (listed : List (Bytes × H)) (s : S)
      → (list lxc.root s).0 ≡ some listed
      → (remove_old_containers lxc list s).0 ≡ ok tt
      → All
          (λ c. is_sc_name c.0 ≡ true → Gone c.1 (remove_old_containers lxc list s).1)
          (container_map listed [])
  unfolding remove_old_containers
  remove_old_containers-Gone list listed s found done =
      remove_listed-Gone listed (list lxc.root s) found done
