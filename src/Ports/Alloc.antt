-- ===== src/Ports/Alloc.antt =====
-- Which port an allocation takes, and what allocating and releasing do to the ports in use.
use usb_lib.Prelude.{
  ℕ, zero, suc, ◌+◌, ◌<◌, ◌≡◌, ◌↔◌, ◌⊎◌, inl, inr, refl, ap, List, [], ◌∷◌, Bool, true, false,
  Option, none, some, get_elem?, set, length, arith, subst, Bool-cases, lt→ltb,
}
use usb_lib.Ports.{
  PortTable, done, take_first_free, get_available_port, release_port, active_from, get_active_ports,
}

-- The port that is in use.
abbrev pub InUse : List Bool → ℕ → Type 0
InUse usage p = get_elem? usage p ≡ some true

abbrev pub IsFree : List Bool → ℕ → Type 0
IsFree usage p = get_elem? usage p ≡ some false

-- What the search from index `i` on found.
Found : ℕ → List Bool → Option ℕ × List Bool → Type 0
Found i ports (none, ports') = (ports' ≡ ports) × ((q : ℕ) → q < length ports → InUse ports q)
Found i ports (some p, ports') =
    (k : ℕ) × (p ≡ i + k)
    × IsFree ports k
    × (ports' ≡ set ports k true)
    × ((q : ℕ) → q < k → InUse ports q)

take_first_free-Found : (i : ℕ) (ports : List Bool) → Found i ports (take_first_free i ports)
unfolding Found take_first_free
take_first_free-Found i [] = (refl, λ q h. absurd (omega arith))
take_first_free-Found i (false ∷ ports) = (0, omega arith, refl, refl, λ q h. absurd (omega arith))
take_first_free-Found i (true ∷ ports) =
    step (take_first_free (i + 1) ports) (take_first_free-Found (i + 1) ports)
  where
    step :
        (r : Option ℕ × List Bool)
        → Found (i + 1) ports r
        → Found i (true ∷ ports) (r.0, true ∷ r.1)
    step (none, ports') (same, full) = (ap (◌∷◌ true) same, all)
      where
        all : (q : ℕ) → q < length (true ∷ ports) → InUse (true ∷ ports) q
        all zero h = refl
        all (suc q) h = full q (omega arith)
    step (some p, ports') (k, e, is_free, updated, below) =
        (suc k, omega arith, is_free, ap (◌∷◌ true) updated, all)
      where
        all : (q : ℕ) → q < suc k → InUse (true ∷ ports) q
        all zero h = refl
        all (suc q) h = below q (omega arith)

-- The two answers of `GetAvailablePort`.
pub data Allocation (t : PortTable) : Type 0 where
  exhausted :
      ((q : ℕ) → q < length t.usage → InUse t.usage q)
      → get_available_port t ≡ done (none, t)
      → Allocation t
  granted :
      (p : ℕ)
      → IsFree t.usage p
      → ((q : ℕ) → q < p → InUse t.usage q)
      → get_available_port t ≡ done (some p, record t { usage = set t.usage p true })
      → Allocation t

-- With the mutex free, `GetAvailablePort` grants the lowest port that is not in use and marks it, and
-- no other; it answers -1, and changes nothing, exactly when every port is in use.
pub get_available_port-Allocation : (t : PortTable) → t.locked ≡ false → Allocation t
unfolding get_available_port
get_available_port-Allocation t unlocked =
    go (take_first_free 0 t.usage) refl (take_first_free-Found 0 t.usage)
  where
    go :
        (r : Option ℕ × List Bool)
        → take_first_free 0 t.usage ≡ r
        → Found 0 t.usage r
        → Allocation t
    go (none, ports') e f = unfold Found in exhausted (f.1) (ground (arith, e, f.0))
    go (some p, ports') e f =
        unfold Found in
        (let (k, at_k, is_free, updated, below) = f in
          let same : k ≡ p = omega arith in
          granted p (subst (IsFree t.usage) same is_free) (λ q h. below q (omega arith))
            (ground (arith, e, updated, same)))

set_back : (ports : List Bool) (p : ℕ) → IsFree ports p → set (set ports p true) p false ≡ ports
set_back [] p e = cc
set_back (b ∷ ports) zero e = cc
set_back (b ∷ ports) (suc p) e = ap (◌∷◌ b) (set_back ports p e)

length-set : (ports : List Bool) (p : ℕ) (b : Bool) → length (set ports p b) ≡ length ports
length-set [] p b = refl
length-set (x ∷ ports) zero b = refl
length-set (x ∷ ports) (suc p) b = ap suc (length-set ports p b)

pub free_in_range :
    (ports : List Bool) (p : ℕ) (b : Bool) → get_elem? ports p ≡ some b → p < length ports
free_in_range [] p b e = absurd (ground arith)
free_in_range (x ∷ ports) zero b e = omega arith
free_in_range (x ∷ ports) (suc p) b e = omega (arith, free_in_range ports p b e)

-- Releasing the port that was just granted restores the table.
pub release-get_available_port :
    (t t' : PortTable) (p : ℕ)
    → get_available_port t ≡ done (some p, t')
    → release_port p t' ≡ done t
unfolding release_port
release-get_available_port t t' p e = elim (Bool-cases t.locked) [
  | inl held ↦ absurd (unfold get_available_port in ground arith)
  | inr unlocked ↦ restore unlocked (get_available_port-Allocation t unlocked)
]
  where
    restore : t.locked ≡ false → Allocation t → release_port p t' ≡ done t
    restore unlocked (exhausted full e') = absurd (ground (arith, e, e'))
    restore unlocked (granted q is_free below e') =
        let port : p ≡ q = cc (e, e') in
        let table : t' ≡ record t { usage = set t.usage q true } = cc (e, e') in
        let room : q < length (set t.usage q true) =
          omega (arith, free_in_range t.usage q false is_free, length-set t.usage q true) in
        rw (port, table)
          (rw (unlocked, lt→ltb q (length (set t.usage q true)) room, set_back t.usage q is_free)
            (ground arith))

abbrev pub Listed : ℕ → List ℕ → Type 0
Listed p [] = ⊥
Listed p (q ∷ qs) = (p ≡ q) ⊎ Listed p qs

active_from→InUse :
    (i : ℕ) (ports : List Bool) (p : ℕ)
    → Listed p (active_from i ports)
    → (k : ℕ) × (p ≡ i + k) × InUse ports k
unfolding active_from
active_from→InUse i [] p h = elim h [ ]
active_from→InUse i (true ∷ ports) p (inl e) = (0, omega arith, refl)
active_from→InUse i (true ∷ ports) p (inr h) =
    let (k, e, used) = active_from→InUse (i + 1) ports p h in (suc k, omega arith, used)
active_from→InUse i (false ∷ ports) p h =
    let (k, e, used) = active_from→InUse (i + 1) ports p h in (suc k, omega arith, used)

InUse→active_from :
    (i : ℕ) (ports : List Bool) (k p : ℕ)
    → p ≡ i + k
    → InUse ports k
    → Listed p (active_from i ports)
unfolding active_from
InUse→active_from i [] k p e h = absurd (ground arith)
InUse→active_from i (true ∷ ports) zero p e h = inl (omega arith)
InUse→active_from i (false ∷ ports) zero p e h = absurd (ground arith)
InUse→active_from i (true ∷ ports) (suc k) p e h =
    inr (InUse→active_from (i + 1) ports k p (omega arith) h)
InUse→active_from i (false ∷ ports) (suc k) p e h =
    InUse→active_from (i + 1) ports k p (omega arith) h

-- With the mutex free, `GetActivePorts` returns, and it lists exactly the ports that are in use.
pub get_active_ports-InUse :
    (t : PortTable)
    → t.locked ≡ false
    → (ps : List ℕ) × (get_active_ports t ≡ done ps) × ((p : ℕ) → Listed p ps ↔ InUse t.usage p)
unfolding get_active_ports
get_active_ports-InUse t unlocked = (
  active_from 0 t.usage,
  rw unlocked,
  λ p. (listed p, λ h. InUse→active_from 0 t.usage p p (omega arith) h),
)
  where
    listed : (p : ℕ) → Listed p (active_from 0 t.usage) → InUse t.usage p
    listed p h =
        let (k, e, used) = active_from→InUse 0 t.usage p h in
        let same : k ≡ p = omega arith in subst (InUse t.usage) same used
