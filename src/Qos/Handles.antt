-- ===== src/Qos/Handles.antt =====
-- cyclonedds/src/dds_qos.rs: who deletes the object of the C library behind a `DdsQos`. A `DdsQos` is
-- the address of the object, or null; the state is a list of the objects that are allocated, newest
-- first, to which `dds_create_qos` adds what it answers and from which `dds_delete_qos` takes its
-- argument, as they are documented. What `dds_create_qos` and `dds_copy_qos` answer is an argument.
use cyclonedds_rs.Common.{
  ℕ, ◌+◌, ◌≤◌, ◌≡◌, false-true, Bool-cases, inl, inr, refl, Bool, true, false, List, [], ◌∷◌,
  Option, none, some, ◌==◌, ==_self, if◌then◌else◌, arith,
}
use cyclonedds_rs.Error.{ReturnCode, non_negative, negative, Result, ok, err, out_of_resources}

abbrev pub DdsQos : Type 0
DdsQos = Option ℕ

abbrev pub Live : Type 0
Live = List ℕ

-- The end of a clone: a handle, or a panic.
pub data Cloned : Type 0 where
  cloned : DdsQos → Live → Cloned
  panicked : Live → Cloned

-- The list after a call of `dds_delete_qos`.
unfoldable pub release : ℕ → Live → Live
release p [] = []
release p (q ∷ live) = if p == q then live else q ∷ release p live

unfoldable pub create_handle : Option ℕ → Live → Result DdsQos × Live
create_handle none live = (err out_of_resources, live)
create_handle (some p) live = (ok (some p), p ∷ live)

unfoldable pub drop_handle : DdsQos → Live → Live
unfolding release
drop_handle none live = live
drop_handle (some p) live = release p live

-- `Clone`, where `dds_create_qos` answers with the address of a new object, or null, which
-- `dds_delete_qos` leaves alone.
unfoldable pub clone : Option ℕ → ReturnCode → Live → Cloned
unfolding release
clone (some q) (non_negative n) live = cloned (some q) (q ∷ live)
clone (some q) (negative n) live = panicked (release q (q ∷ live))
clone none (non_negative n) live = cloned none live
clone none (negative n) live = panicked live

-- `From<DdsQos> for *const dds_qos_t`: the address is taken out, and null is dropped.
unfoldable pub into_ptr : DdsQos → Live → Option ℕ × Live
unfolding drop_handle
into_ptr qos live = (qos, drop_handle none live)

-- `from_ptr`, a use of the object that leaves it alone, then `forget`, which drops null.
unfoldable pub borrow {ℓ} : {A : Type ℓ} → (DdsQos → A) → ℕ → Live → A × Live
unfolding drop_handle
borrow use_qos p live = (use_qos (some p), drop_handle none live)

-- `maybe_qos.map_or(null, |q| q.into())`, before a call that creates an entity and takes the address
-- as a pointer to constant data.
unfoldable pub qos_argument : Option DdsQos → Live → Option ℕ × Live
unfolding into_ptr
qos_argument none live = (none, live)
qos_argument (some qos) live = into_ptr qos live

-- A program that uses handles: those that are not null, the addresses that it has handed over to the
-- creation of entities, and the objects.
pub record World : Type 0 where
  pub handles : List ℕ
  pub handed : List ℕ
  pub live : Live

-- `create` and `clone` with what the C library answers, the end of a handle, its conversion for the
-- creation of an entity, and the reading of a policy through a pointer.
pub data Use : Type 0 where
  creates : Option ℕ → Use
  clones : Option ℕ → ReturnCode → Use
  drops : ℕ → Use
  hands_over : ℕ → Use
  reads : ℕ → Use

abbrev pub start : World
start = record { handles = []; handed = []; live = [] }

unfoldable pub holds : ℕ → List ℕ → Bool
holds p [] = false
holds p (q ∷ handles) = if p == q then true else holds p handles

abbrev pub with_handle : Result DdsQos × Live → World → World
with_handle (ok (some p), live) w = record w { handles = p ∷ w.handles; live = live }
with_handle (ok none, live) w = record w { live = live }
with_handle (err e, live) w = record w { live = live }

abbrev pub with_clone : Cloned → World → World
with_clone (cloned (some q) live) w = record w { handles = q ∷ w.handles; live = live }
with_clone (cloned none live) w = record w { live = live }
with_clone (panicked live) w = record w { live = live }

-- Only a handle that the program holds can be used.
unfoldable pub step : World → Use → World
unfolding create_handle clone drop_handle qos_argument borrow holds release into_ptr
step w (creates answer) = with_handle (create_handle answer w.live) w
step w (clones q code) = with_clone (clone q code w.live) w
step w (drops p) =
    if holds p w.handles
    then record w { handles = release p w.handles; live = drop_handle (some p) w.live }
    else w
step w (hands_over p) =
    if holds p w.handles
    then record w {
      handles = release p w.handles;
      handed = p ∷ w.handed;
      live = (qos_argument (some (some p)) w.live).1;
    }
    else w
step w (reads p) = record w { live = (borrow (λ qos. qos) p w.live).1 }

unfoldable pub run : World → List Use → World
unfolding step
run w [] = w
run w (use' ∷ uses) = run (step w use') uses

-- How often an address is in a list.
abbrev pub count : ℕ → List ℕ → ℕ
count a [] = 0
count a (p ∷ ps) = (if a == p then 1 else 0) + count a ps

count-delete :
    (a p : ℕ) (ps : List ℕ)
    → holds p ps ≡ true
    → count a ps ≡ (if a == p then 1 else 0) + count a (release p ps)
unfolding holds release
count-delete a p [] h = absurd (false-true h)
count-delete a p (q ∷ ps) h = ground (arith, count-delete a p ps)

holds-of_count : (p : ℕ) (ps : List ℕ) → 1 ≤ count p ps → holds p ps ≡ true
unfolding holds
holds-of_count p [] h = absurd (omega arith)
holds-of_count p (q ∷ ps) h = ground (arith, holds-of_count p ps)

count-of_holds : (p : ℕ) (ps : List ℕ) → holds p ps ≡ true → 1 ≤ count p ps
unfolding holds
count-of_holds p [] h = absurd (false-true h)
count-of_holds p (q ∷ ps) h = ground (arith, count-of_holds p ps)

-- Each object is behind one handle, or has been handed over.
abbrev pub IsBalanced : World → Type 0
IsBalanced w = (a : ℕ) → count a w.live ≡ count a w.handles + count a w.handed

delete-cons : (p : ℕ) (live : Live) → release p (p ∷ live) ≡ live
unfolding release
delete-cons p live = rw ==_self refl

-- A handle is that of an object.
holds-live : (w : World) (p : ℕ) → IsBalanced w → holds p w.handles ≡ true → holds p w.live ≡ true
holds-live w p b h = holds-of_count p w.live (omega (arith, b p, count-of_holds p w.handles h))

step-IsBalanced : (w : World) (use' : Use) → IsBalanced w → IsBalanced (step w use')
unfolding step create_handle clone drop_handle qos_argument into_ptr borrow
step-IsBalanced w (creates none) b a = b a
step-IsBalanced w (creates (some p)) b a = omega (arith, b a)
step-IsBalanced w (clones (some q) (non_negative n)) b a = omega (arith, b a)
step-IsBalanced w (clones (some q) (negative n)) b a = rw delete-cons (b a)
step-IsBalanced w (clones none (non_negative n)) b a = b a
step-IsBalanced w (clones none (negative n)) b a = b a
step-IsBalanced w (drops p) b a = elim (Bool-cases (holds p w.handles)) [
  | inl held ↦ rw held (
      omega (
        arith,
        b a,
        count-delete a p w.handles held,
        count-delete a p w.live (holds-live w p b held),
      ))
  | inr foreign ↦ rw foreign (b a)
]
step-IsBalanced w (hands_over p) b a = elim (Bool-cases (holds p w.handles)) [
  | inl held ↦ rw held (omega (arith, b a, count-delete a p w.handles held))
  | inr foreign ↦ rw foreign (b a)
]
step-IsBalanced w (reads p) b a = b a

run-IsBalanced : (w : World) (uses : List Use) → IsBalanced w → IsBalanced (run w uses)
unfolding run
run-IsBalanced w [] b = b
run-IsBalanced w (use' ∷ uses) b = run-IsBalanced (step w use') uses (step-IsBalanced w use' b)

-- After any uses of handles, each address is allocated just as often as handles hold it and as it has
-- been handed over to the creation of an entity: nothing that is dropped stays, no object is deleted
-- behind a handle, and what is handed over is never deleted.
pub objects_balanced :
    (uses : List Use) (p : ℕ)
    → count p (run start uses).live
      ≡ count p (run start uses).handles + count p (run start uses).handed
objects_balanced uses = run-IsBalanced start uses (λ a. refl)
