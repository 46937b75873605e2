-- ===== src/Execution/Dag/Depth.antt =====
-- internal/execution/dag.go: the search of `HasCycle` goes no deeper than there are nodes.
use hydra_db.Base.{
  ℕ, zero, suc, ◌+◌, ◌≤◌, String, ◌≡◌, refl, ap, subst, List, [], ◌∷◌, eq_iff, arith, Memᴰ, length,
}
use hydra_db.Execution.Job.{Ref}
use hydra_db.Execution.Dag.{
  Dag, children, Colour, white, gray, black, Colours, paint, Search, out_of_fuel, found, finished,
  scan, dfs, blacken,
}
use hydra_db.Execution.Dag.Paths.{Edge}
use hydra_db.Execution.Dag.Colours.{after_visit, scan_step, scan-cons}

abbrev pub Listed : List (String × Ref) → String → Type 0
Listed order v = (job : Ref) × Memᴰ (v, job) order

abbrev pub is_white : Colour → ℕ
is_white white = 1
is_white _ = 0

-- How many of the listed nodes are white.
abbrev pub whites : List (String × Ref) → Colours → ℕ
whites [] colours = 0
whites ((v, job) ∷ rest) colours = is_white (colours v) + whites rest colours

-- The search has not run out of fuel, and no node has become white.
abbrev pub Ended : Colours → Search → Type 0
Ended before out_of_fuel = ⊥
Ended before found = Unit
Ended before (finished after) = (k : String) → after k ≡ white → before k ≡ white

white-le : (a b : Colour) → (a ≡ white → b ≡ white) → is_white a ≤ is_white b
white-le white b h = rw (h refl) (omega arith)
white-le gray b h = omega arith
white-le black b h = omega arith

white_le_one : (a : Colour) → is_white a ≤ 1
white_le_one white = omega arith
white_le_one gray = omega arith
white_le_one black = omega arith

pub whites-le :
    (order : List (String × Ref)) (after before : Colours)
    → ((k : String) → after k ≡ white → before k ≡ white)
    → whites order after ≤ whites order before
whites-le [] after before h = omega arith
whites-le ((v, job) ∷ rest) after before h =
    omega (arith, whites-le rest after before h, white-le (after v) (before v) (h v))

gray_white : (v k : String) (colours : Colours) → paint v gray colours k ≡ white → colours k ≡ white
gray_white v k colours e = ground arith

-- Painting a listed white node leaves fewer white ones.
whites-paint :
    (v : String) (job : Ref) (order : List (String × Ref)) (colours : Colours)
    → colours v ≡ white
    → Memᴰ (v, job) order
    → suc (whites order (paint v gray colours)) ≤ whites order colours
whites-paint v job [] colours fresh m = elim m [ ]
whites-paint v job ((u, j) ∷ rest) colours fresh (Memᴰ.head e) =
    let same : v ≡ u = ap (λ (p : String × Ref). p.0) e in
    ground (
      arith,
      eq_iff v u,
      ap colours same,
      whites-le rest (paint v gray colours) colours (λ k. gray_white v k colours),
    )
whites-paint v job ((u, j) ∷ rest) colours fresh (Memᴰ.tail m) = omega (
  arith,
  whites-paint v job rest colours fresh m,
  white-le (paint v gray colours u) (colours u) (gray_white v u colours),
)

Ended-trans :
    {a b : Colours} (s : Search)
    → ((k : String) → b k ≡ white → a k ≡ white)
    → Ended b s
    → Ended a s
Ended-trans out_of_fuel p e = e
Ended-trans found p e = e
Ended-trans (finished after) p e = λ k h. p k (e k h)

Ended-blacken : (a : Colours) (v : String) (s : Search) → Ended a s → Ended a (blacken v s)
unfolding blacken
Ended-blacken a v out_of_fuel e = e
Ended-blacken a v found e = e
Ended-blacken a v (finished after) e = λ k h. e k (ground arith)

module _ (d : Dag) (order : List (String × Ref))
    (listed : (u v : String) → Edge d u v → Listed order v) where
  abbrev Deep : ℕ → (String → Colours → Search) → Type 0
  Deep fuel visit =
      (c : String) (colours : Colours)
      → Listed order c
      → colours c ≡ white
      → whites order colours ≤ fuel
      → Ended colours (visit c colours)

  module _ (fuel : ℕ) (visit : String → Colours → Search) (deep : Deep fuel visit) where
    scan_after :
        (cs : List String) (colours : Colours) (s : Search)
        → ((b : Colours) → whites order b ≤ fuel → Ended b (scan visit cs b))
        → whites order colours ≤ fuel
        → Ended colours s
        → Ended colours (after_visit visit cs s)
    unfolding after_visit
    scan_after cs colours out_of_fuel rest le e = e
    scan_after cs colours found rest le e = e
    scan_after cs colours (finished after) rest le e =
        Ended-trans (scan visit cs after) e
          (rest after (omega (arith, whites-le order after colours e)))

    scan_ends_step :
        (c : String) (cs : List String) (colours : Colours) (k : Colour)
        → colours c ≡ k
        → Listed order c
        → ((b : Colours) → whites order b ≤ fuel → Ended b (scan visit cs b))
        → whites order colours ≤ fuel
        → Ended colours (scan_step visit k c cs colours)
    unfolding scan_step
    scan_ends_step c cs colours gray e l rest le = tt
    scan_ends_step c cs colours black e l rest le = rest colours le
    scan_ends_step c cs colours white e l rest le =
        scan_after cs colours (visit c colours) rest le (deep c colours l e le)

    scan_ends :
        (cs : List String) (colours : Colours)
        → ((c : String) → Memᴰ c cs → Listed order c)
        → whites order colours ≤ fuel
        → Ended colours (scan visit cs colours)
    unfolding scan
    scan_ends [] colours l le = λ k e. e
    scan_ends (c ∷ cs) colours l le = subst (Ended colours) (scan-cons visit c cs colours) (
        scan_ends_step c cs colours (colours c) refl (l c (Memᴰ.head refl))
          (λ b. scan_ends cs b (λ x m. l x (Memᴰ.tail m))) le)

  pub dfs_ends : (fuel : ℕ) → Deep fuel (dfs d fuel)
  unfolding dfs
  dfs_ends zero v colours (job, m) fresh le =
      absurd (omega (arith, whites-paint v job order colours fresh m))
  dfs_ends (suc fuel) v colours (job, m) fresh le = Ended-blacken colours v _ (
      Ended-trans (scan (dfs d fuel) (children d v) (paint v gray colours))
        (λ k. gray_white v k colours)
        (scan_ends fuel (dfs d fuel) (dfs_ends fuel) (children d v) (paint v gray colours)
          (λ c e. listed v c e) (omega (arith, whites-paint v job order colours fresh m))))

pub whites-le-length : (o : List (String × Ref)) (colours : Colours) → whites o colours ≤ length o
whites-le-length [] colours = omega arith
whites-le-length ((v, job) ∷ rest) colours =
    omega (arith, whites-le-length rest colours, white_le_one (colours v))
