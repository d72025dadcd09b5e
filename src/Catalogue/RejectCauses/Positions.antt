-- ===== src/Catalogue/RejectCauses/Positions.antt =====
-- The positions of the open reject causes.
use procare_backend.Common.{
  ℕ, Uuid, ◌≡◌, refl, subst, inl, inr, Bool, true, false, Option, none, List, any, update_where,
  ◌==◌, arith, Option-cases,
}
use procare_backend.Common.Result.{ok, >>=-eq-ok, if-eq-ok, ok-injective, or_throw-eq-ok}
use procare_backend.Database.{RejectCause}
use procare_backend.Ranking.Relocation.{IsDistinct, IsContiguous, IsRow, at}
use procare_backend.Ranking.Order.{
  count-update_where_le, append-IsDistinct, reposition-IsDistinct, reposition-IsContiguous,
  max_sort-size,
}
use procare_backend.Ranking.Keys.{
  IsKeyed, find-IsRow, update_where-IsKeyed, reposition-IsKeyed, append-IsKeyed,
}
use procare_backend.Catalogue.RejectCauses.{
  causes_by_sort, cause_is_open, RejectCauses, CreateRejectCauseDto, UpdateRejectCauseDto,
  normalize_name, ensure_name_is_unique, get_open_cause_or_throw, update_data, find_one,
  target_sort, write_sort, create, update, update_sort, delete, ensure_new_name, invalidate_cache,
  read_cache,
}

-- What the lookup of the handlers finds.
pub get_open_cause_or_throw-IsRow :
    (id : Uuid) (c : RejectCause) (causes : List RejectCause)
    → IsKeyed causes_by_sort causes
    → get_open_cause_or_throw id causes ≡ ok c
    → IsRow causes_by_sort causes c × ((c.id ≡ id) × (c.is_open ≡ true))
unfolding get_open_cause_or_throw
get_open_cause_or_throw-IsRow id c causes keyed e =
    find-IsRow causes_by_sort id cause_is_open c causes keyed (or_throw-eq-ok _ _ e)

-- What every operation keeps: ids are unique, and no two open causes share a position.
pub record IsOrdered (state : RejectCauses) : Type 0 where
  pub keyed : IsKeyed causes_by_sort state.causes
  pub distinct : IsDistinct causes_by_sort cause_is_open state.causes

create-IsOrdered :
    (new_id : Uuid) (dto : CreateRejectCauseDto) (admin_id : Option Uuid) (s s' : RejectCauses)
    → any (λ (c : RejectCause). c.id == new_id) s.causes ≡ false
    → create new_id dto admin_id s ≡ ok s'
    → IsOrdered s
    → IsOrdered s'
unfolding create
create-IsOrdered new_id dto admin_id s s' fresh e h =
    let (u, unique, done) =
      >>=-eq-ok (ensure_name_is_unique (normalize_name dto.name) none s.causes) _ e in
    subst IsOrdered (ok-injective done) record {
      keyed = append-IsKeyed causes_by_sort _ s.causes fresh h.keyed;
      distinct =
          append-IsDistinct causes_by_sort cause_is_open cause_is_open (λ r x. x) _ s.causes refl
            h.distinct;
    }

update_all-IsOrdered :
    (p : RejectCause → Bool) (f : RejectCause → RejectCause) (s : RejectCauses)
    → ((c : RejectCause) → (f c).id ≡ c.id)
    → ((c : RejectCause) → (f c).sort ≡ c.sort)
    → ((c : RejectCause) → (f c).is_open ≡ true → c.is_open ≡ true)
    → IsOrdered s
    → IsOrdered (record s { causes = update_where p f s.causes })
unfolding at
update_all-IsOrdered p f s same_id same_sort same_open h = record {
  keyed = update_where-IsKeyed causes_by_sort p f s.causes same_id h.keyed;
  distinct = record {
    at_most_one = λ k. ground (
      arith,
      h.distinct.at_most_one k,
      count-update_where_le (at causes_by_sort cause_is_open k) p f s.causes
          (λ r x. ground (arith, same_sort r, same_open r, x)),
    );
  };
}

update-IsOrdered :
    (connected : Bool) (id : Uuid) (dto : UpdateRejectCauseDto) (admin_id : Option Uuid)
    (s s' : RejectCauses)
    → update connected id dto admin_id s ≡ ok s'
    → IsOrdered s
    → IsOrdered s'
unfolding update update_data
update-IsOrdered connected id dto admin_id s s' e h =
    let (existing, found, rest) = >>=-eq-ok (get_open_cause_or_throw id s.causes) _ e in
    let (u, unique, done) = >>=-eq-ok (ensure_new_name id dto.name s.causes) _ rest in
    let kept =
      update_all-IsOrdered (λ c. c.id == existing.id) (update_data dto) s (λ c. refl) (λ c. refl)
        (λ c x. x) h in
    subst IsOrdered (ok-injective done) record { keyed = kept.keyed; distinct = kept.distinct }

delete-IsOrdered :
    (connected : Bool) (id : Uuid) (admin_id : Option Uuid) (s s' : RejectCauses)
    → delete connected id admin_id s ≡ ok s'
    → IsOrdered s
    → IsOrdered s'
unfolding delete
delete-IsOrdered connected id admin_id s s' e h =
    let (existing, found, rest) = >>=-eq-ok (get_open_cause_or_throw id s.causes) _ e in
    let kept =
      update_all-IsOrdered (λ c. c.id == id) (λ c. record c { is_open = false }) s (λ c. refl)
        (λ c. refl) (λ c x. cc) h in
    subst IsOrdered (ok-injective rest) record { keyed = kept.keyed; distinct = kept.distinct }

update_sort-IsOrdered :
    (connected : Bool) (id : Uuid) (new_sort : ℕ) (admin_id : Option Uuid) (s s' : RejectCauses)
    → update_sort connected id new_sort admin_id s ≡ ok s'
    → IsOrdered s
    → IsOrdered s'
unfolding update_sort
update_sort-IsOrdered connected id new_sort admin_id s s' e h =
    let (existing, found, rest) = >>=-eq-ok (get_open_cause_or_throw id s.causes) _ e in
    let (row, (same, live)) = get_open_cause_or_throw-IsRow id existing s.causes h.keyed found in
    let target = target_sort new_sort existing s.causes in
    elim (if-eq-ok (target == existing.sort) (ok s)
      (ok (write_sort connected existing target admin_id s)) rest) [
        | inl (stay, done) ↦ subst IsOrdered (ok-injective done) h
        | inr (go, done) ↦ subst IsOrdered (ok-injective done) record {
          keyed =
              reposition-IsKeyed causes_by_sort cause_is_open existing.id existing.sort target
                s.causes h.keyed;
          distinct =
              reposition-IsDistinct causes_by_sort cause_is_open (λ n r. refl) target existing
                s.causes row live h.distinct;
        }
      ]

find_one-causes :
    (readable writable : Bool) (id : Uuid) (c : RejectCause) (s s' : RejectCauses)
    → find_one readable writable id s ≡ ok (c, s')
    → s.causes ≡ s'.causes
unfolding find_one
find_one-causes readable writable id c s s' e =
    elim (Option-cases (read_cache readable id s.cached)) [
      | inl miss ↦ ground (arith, e, miss)
      | inr (found, hit) ↦ ground (arith, e, hit)
    ]

-- A request that succeeds, or a cached cause that expires.
pub data Step : RejectCauses → RejectCauses → Type 0 where
  created :
      (new_id : Uuid) (dto : CreateRejectCauseDto) (admin_id : Option Uuid) (s s' : RejectCauses)
      → any (λ (c : RejectCause). c.id == new_id) s.causes ≡ false
      → create new_id dto admin_id s ≡ ok s'
      → Step s s'
  updated :
      (connected : Bool) (id : Uuid) (dto : UpdateRejectCauseDto) (admin_id : Option Uuid)
      (s s' : RejectCauses)
      → update connected id dto admin_id s ≡ ok s'
      → Step s s'
  sorted :
      (connected : Bool) (id : Uuid) (new_sort : ℕ) (admin_id : Option Uuid) (s s' : RejectCauses)
      → update_sort connected id new_sort admin_id s ≡ ok s'
      → Step s s'
  deleted :
      (connected : Bool) (id : Uuid) (admin_id : Option Uuid) (s s' : RejectCauses)
      → delete connected id admin_id s ≡ ok s'
      → Step s s'
  was_read :
      (readable writable : Bool) (id : Uuid) (c : RejectCause) (s s' : RejectCauses)
      → find_one readable writable id s ≡ ok (c, s')
      → Step s s'
  expired :
      (id : Uuid) (s : RejectCauses)
      → Step s (record s { cached = invalidate_cache true id s.cached })

pub data Reach (s : RejectCauses) : RejectCauses → Type 0 where
  start : Reach s s
  after : {t u : RejectCauses} → Reach s t → Step t u → Reach s u

pub Step-IsOrdered : {s t : RejectCauses} → Step s t → IsOrdered s → IsOrdered t
Step-IsOrdered (created new_id dto admin_id s t fresh e) h =
    create-IsOrdered new_id dto admin_id s t fresh e h
Step-IsOrdered (updated connected id dto admin_id s t e) h =
    update-IsOrdered connected id dto admin_id s t e h
Step-IsOrdered (sorted connected id new_sort admin_id s t e) h =
    update_sort-IsOrdered connected id new_sort admin_id s t e h
Step-IsOrdered (deleted connected id admin_id s t e) h =
    delete-IsOrdered connected id admin_id s t e h
Step-IsOrdered (was_read readable writable id c s t e) h =
    let same = find_one-causes readable writable id c s t e in
    record {
      keyed = subst (IsKeyed causes_by_sort) same h.keyed;
      distinct = subst (IsDistinct causes_by_sort cause_is_open) same h.distinct;
    }
Step-IsOrdered (expired id s) h = record { keyed = h.keyed; distinct = h.distinct }

-- However the requests follow one another, ids stay unique and no two open causes come to share a
-- position.
pub Reach-IsOrdered : {s t : RejectCauses} → IsOrdered s → Reach s t → IsOrdered t
Reach-IsOrdered h start = h
Reach-IsOrdered h (after run step) = Step-IsOrdered step (Reach-IsOrdered h run)

-- The position asked for is brought into the list, so that any position leaves the open causes at
-- 1, 2, …, without a hole and each taken once.
pub update_sort-IsContiguous :
    (connected : Bool) (id : Uuid) (new_sort : ℕ) (admin_id : Option Uuid) (s s' : RejectCauses)
    → IsKeyed causes_by_sort s.causes
    → IsContiguous causes_by_sort cause_is_open s.causes
    → update_sort connected id new_sort admin_id s ≡ ok s'
    → IsContiguous causes_by_sort cause_is_open s'.causes
unfolding update_sort write_sort target_sort
update_sort-IsContiguous connected id new_sort admin_id s s' keyed c e =
    let (existing, found, rest) = >>=-eq-ok (get_open_cause_or_throw id s.causes) _ e in
    let (row, (same, live)) = get_open_cause_or_throw-IsRow id existing s.causes keyed found in
    let target = target_sort new_sort existing s.causes in
    let (m, max, pos, size) =
      max_sort-size causes_by_sort cause_is_open existing s.causes row live c in
    elim (if-eq-ok (target == existing.sort) (ok s)
      (ok (write_sort connected existing target admin_id s)) rest) [
        | inl (stay, done) ↦
            subst (λ (t : RejectCauses). IsContiguous causes_by_sort cause_is_open t.causes)
              (ok-injective done) c
        | inr (go, done) ↦
            subst (λ (t : RejectCauses). IsContiguous causes_by_sort cause_is_open t.causes)
              (ok-injective done)
              (reposition-IsContiguous causes_by_sort cause_is_open (λ n r. refl) target existing
                s.causes row live (ground (arith, max, pos)) (ground (arith, max, pos, size)) c)
      ]
