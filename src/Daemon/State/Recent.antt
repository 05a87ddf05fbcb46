-- ===== src/Daemon/State/Recent.antt =====
-- internal/daemon/state.go: GetRecentDownloads sorts, newest first, and then cuts.
use mathlib.Core.List.{Perm}
use mathlib.Core.List.Perm
use rescale_interlink.Common.{
  ℕ, zero, suc, ◌≤◌, Bool, true, false, List, [], ◌∷◌, ◌≡◌, refl, All, ltb, if◌then◌else◌, length,
  keep, arith, Bool-cases, inl, inr, ap, take_all, take, subst, sym,
}
use rescale_interlink.Common.Int.{ℤ, pos, ltb_ℤ, pos_part}
use rescale_interlink.Daemon.State.{
  DownloadedJob, State, exchange, exchange_sort, get_recent_downloads, succeeded, jobs,
}

abbrev pub NotAfter : DownloadedJob → DownloadedJob → Type 0
NotAfter limit job = job.downloaded_at ≤ limit.downloaded_at

-- No job of the list is newer than one before it.
abbrev pub IsNewestFirst : List DownloadedJob → Type 0
IsNewestFirst [] = Unit {0}
IsNewestFirst (x ∷ xs) = All (NotAfter x) xs × IsNewestFirst xs

exchange-length :
    (x : DownloadedJob) (xs : List DownloadedJob) → length (exchange x xs).1 ≡ length xs
unfolding exchange
exchange-length x [] = refl
exchange-length x (y ∷ xs) =
    ap suc (exchange-length (if ltb x.downloaded_at y.downloaded_at then y else x) xs)

exchange-perm :
    (x : DownloadedJob) (xs : List DownloadedJob)
    → Perm ((exchange x xs).0 ∷ (exchange x xs).1) (x ∷ xs)
unfolding exchange
exchange-perm x [] = Perm.rfl
exchange-perm x (y ∷ xs) = elim (Bool-cases (ltb x.downloaded_at y.downloaded_at)) [
  | inl e ↦
      rw e (Perm.trans (Perm.swap _ _ _) (Perm.trans (Perm.cons x (exchange-perm y xs)) Perm.rfl))
  | inr e ↦ rw e (
      Perm.trans (Perm.swap _ _ _)
        (Perm.trans (Perm.cons y (exchange-perm x xs)) (Perm.swap _ _ _)))
]

exchange_step :
    (x y : DownloadedJob) (xs : List DownloadedJob) (b : Bool)
    → ltb x.downloaded_at y.downloaded_at ≡ b
    → exchange x (y ∷ xs) ≡ (
      (exchange (if b then y else x) xs).0,
      (if b then x else y) ∷ (exchange (if b then y else x) xs).1,
    )
unfolding exchange
exchange_step x y xs b e =
    ap
      (λ c. (
        (exchange (if c then y else x) xs).0,
        (if c then x else y) ∷ (exchange (if c then y else x) xs).1,
      ))
      e

abbrev NewestFirst : DownloadedJob → DownloadedJob × List DownloadedJob → Type 0
NewestFirst x pass = NotAfter pass.0 x × All (NotAfter pass.0) pass.1

-- The first place gets the newest.
exchange_newest : (x : DownloadedJob) (xs : List DownloadedJob) → NewestFirst x (exchange x xs)
unfolding exchange
exchange_newest x [] = (omega arith, tt)
exchange_newest x (y ∷ xs) = elim (Bool-cases (ltb x.downloaded_at y.downloaded_at)) [
  | inl e ↦
      let (below, rest) = exchange_newest y xs in
      subst (NewestFirst x) (sym (exchange_step x y xs true e)) (ground arith, (ground arith, rest))
  | inr e ↦
      let (below, rest) = exchange_newest x xs in
      subst (NewestFirst x) (sym (exchange_step x y xs false e)) (below, (ground arith, rest))
]

exchange-All :
    (P : DownloadedJob → Type 0) (x : DownloadedJob) (xs : List DownloadedJob)
    → P x
    → All P xs
    → P (exchange x xs).0 × All P (exchange x xs).1
unfolding exchange
exchange-All P x [] h hs = (h, tt)
exchange-All P x (y ∷ xs) h hs = elim (Bool-cases (ltb x.downloaded_at y.downloaded_at)) [
  | inl e ↦ let (first, rest) = exchange-All P y xs hs.0 hs.1 in rw e (first, (h, rest))
  | inr e ↦ let (first, rest) = exchange-All P x xs h hs.1 in rw e (first, (hs.0, rest))
]

exchange_sort-All :
    (P : DownloadedJob → Type 0) (n : ℕ) (xs : List DownloadedJob)
    → All P xs
    → All P (exchange_sort n xs)
unfolding exchange_sort
exchange_sort-All P zero xs h = h
exchange_sort-All P (suc n) [] h = tt
exchange_sort-All P (suc n) (x ∷ xs) h =
    let (first, rest) = exchange-All P x xs h.0 h.1 in
    (first, exchange_sort-All P n (exchange x xs).1 rest)

exchange_sort-perm : (n : ℕ) (xs : List DownloadedJob) → Perm (exchange_sort n xs) xs
unfolding exchange_sort
exchange_sort-perm zero xs = Perm.rfl
exchange_sort-perm (suc n) [] = Perm.rfl
exchange_sort-perm (suc n) (x ∷ xs) =
    Perm.trans (Perm.cons _ (exchange_sort-perm n (exchange x xs).1)) (exchange-perm x xs)

exchange_sort-IsNewestFirst :
    (n : ℕ) (xs : List DownloadedJob) → length xs ≤ n → IsNewestFirst (exchange_sort n xs)
unfolding exchange_sort
exchange_sort-IsNewestFirst zero [] h = tt
exchange_sort-IsNewestFirst zero (x ∷ xs) h = absurd (omega arith)
exchange_sort-IsNewestFirst (suc n) [] h = tt
exchange_sort-IsNewestFirst (suc n) (x ∷ xs) h =
    let pass = exchange x xs in
    (
      exchange_sort-All (NotAfter pass.0) n pass.1 (exchange_newest x xs).1,
      exchange_sort-IsNewestFirst n pass.1 (omega (arith, exchange-length x xs)),
    )

-- What a limit leaves of a list; one that is not positive is none.
abbrev pub cut : ℤ → List DownloadedJob → List DownloadedJob
cut limit xs = if ltb_ℤ (pos 0) limit then take (pos_part limit) xs else xs

-- The downloads that GetRecentDownloads returns are the first of all successful ones put newest first,
-- as many as the limit, or all of them if the limit is not positive or they are fewer.
pub get_recent_downloads_lem :
    (s : State) (limit : ℤ)
    → (newest : List DownloadedJob) × IsNewestFirst newest
      × Perm newest (keep succeeded (jobs s))
      × (get_recent_downloads s limit ≡ cut limit newest)
unfolding get_recent_downloads
get_recent_downloads_lem s limit =
    let found = keep succeeded (jobs s) in
    let newest = exchange_sort (length found) found in
    (
      newest,
      exchange_sort-IsNewestFirst (length found) found (omega arith),
      exchange_sort-perm (length found) found,
      ground (arith, take_all (pos_part limit) newest),
    )
