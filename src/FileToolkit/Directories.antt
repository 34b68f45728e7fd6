-- ===== src/FileToolkit/Directories.antt =====
-- Which directories CreateDir makes, and that its recursion ends.
use softwarecontainer.Common.{
  ◌≡◌, refl, ℕ, zero, suc, ◌+◌, ◌<◌, ◌⊎◌, inl, inr, Bool, true, false, List, [], ◌∷◌, arith, length,
  if◌then◌else◌, Bool-cases, Any, any, ◌↔◌,
}
use softwarecontainer.Common.Bytes.{Bytes, ◌==◌, eq_iff}
use softwarecontainer.Common.Throwing.{Result, ok, throw, continue, and_then_keeps}
use softwarecontainer.OperatingSystem.{Os}
use softwarecontainer.FileToolkit.Watching.{Seen, note_made, watch}
use softwarecontainer.FileToolkit.CreateDir.{
  path_in_list, add_cleaner, make_directory, create_directory_within, create_directory,
}

module _ {S : Type 0} (os : Os S) where
  if_keeps :
      (P : List Bytes × S → Type 0) (c : Bool) (r r' : Result Bool × (List Bytes × S))
      → P r.1
      → P r'.1
      → P (if c then r else r').1
  if_keeps P true r r' h k = h
  if_keeps P false r r' h k = k

  within_keeps :
      (P : List Bytes × S → Type 0)
      → ((path : Bytes) (st : List Bytes × S) → P st → P (make_directory os path st).1)
      → (calls : ℕ) (path : Bytes) (st : List Bytes × S) → P st
      → P (create_directory_within os calls path st).1
  unfolding create_directory_within
  within_keeps P keeps zero path st h = h
  within_keeps P keeps (suc n) path (dirs, s) h =
      let parents : Result Bool × (List Bytes × S) =
        create_directory_within os n (os.parent_path path) (dirs, s) in
      if_keeps P (os.is_directory path s) (ok true, (dirs, s))
        (continue parents (make_directory os path)) h
        (and_then_keeps P parents (make_directory os path)
          (within_keeps P keeps n (os.parent_path path) (dirs, s) h) (keeps path))

  -- What the creation of one directory keeps, `createDirectory` keeps.
  pub create_directory_keeps :
      (P : List Bytes × S → Type 0)
      → ((path : Bytes) (st : List Bytes × S) → P st → P (make_directory os path st).1)
      → (path : Bytes) (st : List Bytes × S) → P st
      → P (create_directory os path st).1
  unfolding create_directory
  create_directory_keeps P keeps path = within_keeps P keeps (length path + 2) path

  -- What `dirname` gives is shorter than its argument, or it is a directory ("/" or ".").
  unfoldable pub ParentsEnd : Type 0
  ParentsEnd =
      (path : Bytes) (s : S)
      → os.is_directory path s ≡ false
      → (length (os.parent_path path) < length path)
        ⊎ (os.is_directory (os.parent_path path) s ≡ true)

  -- The call returns: it gives a value, and the bound on the calls is not met.
  abbrev Returns : Result Bool × (List Bytes × S) → Type 0
  Returns r = (b : Bool) × (r.0 ≡ ok b)

  make_directory-Returns :
      (path : Bytes) (r : Result Bool × (List Bytes × S))
      → Returns r
      → Returns (continue r (make_directory os path))
  unfolding make_directory
  make_directory-Returns path (ok true, (d, s)) h = go ((os.mkdir path s).0)
    where
      go :
          (b : Bool)
          → Returns (
              if b
              then (ok true, (add_cleaner path d, (os.mkdir path s).1))
              else (ok false, (d, (os.mkdir path s).1)))
      go true = (true, refl)
      go false = (false, refl)
  make_directory-Returns path (ok false, st) h = h
  make_directory-Returns path (throw e, st) h = h

  if-Returns :
      (c : Bool) (r : Result Bool × (List Bytes × S)) (st : List Bytes × S)
      → (c ≡ false → Returns r)
      → Returns (if c then (ok true, st) else r)
  if-Returns true r st h = (true, refl)
  if-Returns false r st h = h refl

  next_bound :
      (path : Bytes) (n : ℕ) (s : S)
      → (length path + 1 < suc n) ⊎ ((0 < suc n) × (os.is_directory path s ≡ true))
      → os.is_directory path s ≡ false
      → (length (os.parent_path path) < length path)
        ⊎ (os.is_directory (os.parent_path path) s ≡ true)
      → (length (os.parent_path path) + 1 < n)
        ⊎ ((0 < n) × (os.is_directory (os.parent_path path) s ≡ true))
  next_bound path n s (inl enough) e (inl shorter) = inl (omega arith)
  next_bound path n s (inl enough) e (inr there) = inr (omega arith, there)
  next_bound path n s (inr there) e _ = absurd (ground (arith, there.1))

  within-Returns :
      ParentsEnd
      → (calls : ℕ) (path : Bytes) (dirs : List Bytes) (s : S)
      → (length path + 1 < calls) ⊎ ((0 < calls) × (os.is_directory path s ≡ true))
      → Returns (create_directory_within os calls path (dirs, s))
  unfolding create_directory_within ParentsEnd
  within-Returns ends zero path dirs s (inl h) = absurd (omega arith)
  within-Returns ends zero path dirs s (inr h) = absurd (omega (arith, h.0))
  within-Returns ends (suc n) path dirs s h =
      if-Returns (os.is_directory path s)
        (continue (create_directory_within os n (os.parent_path path) (dirs, s))
          (make_directory os path))
        (dirs, s)
        (λ e.
          make_directory-Returns path (create_directory_within os n (os.parent_path path) (dirs, s))
            (within-Returns ends n (os.parent_path path) dirs s
              (next_bound path n s h e (ends path s e))))

  -- `createDirectory` returns, on any path and in any state.
  pub create_directory_returns :
      ParentsEnd
      → (path : Bytes) (dirs : List Bytes) (s : S)
      → (b : Bool) × ((create_directory os path (dirs, s)).0 ≡ ok b)
  unfolding create_directory
  create_directory_returns ends path dirs s =
      within-Returns ends (length path + 2) path dirs s (inl (omega arith))

listed_cases :
    (path d : Bytes) (ds : List Bytes)
    → (any (λ q. q == path) ds ≡ true → Any (λ p. p ≡ path) ds)
    → any (λ q. q == path) (d ∷ ds) ≡ true
    → ((d == path) ≡ true) ⊎ ((d == path) ≡ false)
    → Any (λ p. p ≡ path) (d ∷ ds)
listed_cases path d ds rest h (inl e) = inl ((eq_iff d path).0 e)
listed_cases path d ds rest h (inr e) = inr (rest (ground (arith, h, e)))

listed :
    (path : Bytes) (dirs : List Bytes) → any (λ q. q == path) dirs ≡ true → Any (λ p. p ≡ path) dirs
listed path [] h = absurd (ground (arith, h))
listed path (d ∷ ds) h = listed_cases path d ds (listed path ds) h (Bool-cases (d == path))

add_if-Any :
    (P : Bytes → Type 0) (c : Bool) (path : Bytes) (dirs : List Bytes)
    → ((c ≡ true) → Any P dirs)
    → P path
    → Any P (if c then dirs else path ∷ dirs)
add_if-Any P true path dirs h k = h refl
add_if-Any P false path dirs h k = inl k

keep_if-Any :
    (P : Bytes → Type 0) (c : Bool) (path : Bytes) (dirs : List Bytes)
    → Any P dirs
    → Any P (if c then dirs else path ∷ dirs)
keep_if-Any P true path dirs h = h
keep_if-Any P false path dirs h = inr h

add_cleaner-Any : (path : Bytes) (dirs : List Bytes) → Any (λ p. p ≡ path) (add_cleaner path dirs)
unfolding add_cleaner path_in_list
add_cleaner-Any path dirs =
    add_if-Any (λ p. p ≡ path) (any (λ q. q == path) dirs) path dirs (listed path dirs) refl

add_cleaner_keeps :
    (P : Bytes → Type 0) (path : Bytes) (dirs : List Bytes)
    → Any P dirs
    → Any P (add_cleaner path dirs)
unfolding add_cleaner path_in_list
add_cleaner_keeps P path dirs h = keep_if-Any P (any (λ q. q == path) dirs) path dirs h

add_if-Any_cases :
    (P : Bytes → Type 0) (c : Bool) (path : Bytes) (dirs : List Bytes)
    → Any P (if c then dirs else path ∷ dirs)
    → P path ⊎ Any P dirs
add_if-Any_cases P true path dirs h = inr h
add_if-Any_cases P false path dirs h = h

module _ {S : Type 0} (os : Os S) where
  -- The directories that the cleaners will delete are those that mkdir has made.
  unfoldable pub Recorded : List Bytes × (Seen × S) → Type 0
  Recorded (cleaners, (w, s)) = (p : Bytes) → Any (λ q. q ≡ p) cleaners ↔ Any (λ q. q ≡ p) w.made

  made-Recorded :
      (worked : Bool) (path : Bytes) (cleaners : List Bytes) (w : Seen) (s s' : S)
      → Recorded (cleaners, (w, s))
      → Recorded
          (if◌then◌else◌ {A = Result Bool × (List Bytes × (Seen × S))} worked
            (ok true, (add_cleaner path cleaners, (note_made path worked w, s')))
            (ok false, (cleaners, (note_made path worked w, s')))).1
  unfolding Recorded add_cleaner path_in_list
  made-Recorded false path cleaners w s s' h p = h p
  made-Recorded true path cleaners w s s' h p = (
    λ a. elim (add_if-Any_cases (λ q. q ≡ p) (any (λ q. q == path) cleaners) path cleaners a) [
      | inl e ↦ inl e
      | inr old ↦ inr ((h p).0 old)
    ],
    λ a. elim a [
      | inl e ↦ rw (← e) (add_cleaner-Any path cleaners)
      | inr old ↦ add_cleaner_keeps (λ q. q ≡ p) path cleaners ((h p).1 old)
    ],
  )

  make_directory-Recorded :
      (path : Bytes) (st : List Bytes × (Seen × S))
      → Recorded st
      → Recorded (make_directory (watch os) path st).1
  unfolding make_directory
  make_directory-Recorded path (cleaners, (w, s)) =
      made-Recorded (os.mkdir path s).0 path cleaners w s (os.mkdir path s).1

  -- Whether it works or not, `createDirectory` keeps that the paths of the cleaners in the
  -- CreateDir object are exactly those for which mkdir has worked.
  pub create_directory-Recorded :
      (path : Bytes) (st : List Bytes × (Seen × S))
      → Recorded st
      → Recorded (create_directory (watch os) path st).1
  create_directory-Recorded = create_directory_keeps (watch os) Recorded make_directory-Recorded
