-- ===== src/Catalogue/RejectCauses/Cache.antt =====
-- The causes that are cached by id. `updateSort` deletes only the cached cause that was moved, so
-- those that made room are cached with their old position.
use procare_backend.Common.{
  ℕ, Uuid, ◌+◌, ◌-◌, ◌≡◌, refl, subst, ap, find-update_where, find-update_where_other, find-append,
  map_option, find_test, inl, inr, Bool, true, false, ◌&&◌, Option, none, some, List, [], ◌++◌,
  find, update_where, ltb, leb, ◌==◌, if◌then◌else◌, arith, Bool-cases, ==_iff, sym, Option-cases,
}
use procare_backend.Common.Result.{ok, >>=-eq-ok, if-eq-ok, ok-injective, or_throw-eq-ok}
use procare_backend.Database.{RejectCause}
use procare_backend.Ranking.{shift, reposition}
use procare_backend.Catalogue.{HistoryEvent}
use procare_backend.Catalogue.RejectCauses.{
  causes_by_sort, cause_is_open, RejectCauses, CreateRejectCauseDto, UpdateRejectCauseDto,
  normalize_name, ensure_name_is_unique, get_open_cause_or_throw, update_data, find_one,
  target_sort, write_sort, create, update, update_sort, delete, ensure_new_name, invalidate_cache,
  read_cache, write_cache,
}
use procare_backend.Catalogue.RejectCauses.Positions.{
  Step, created, updated, sorted, deleted, was_read, expired, Reach, start, after,
}

abbrev pub open_with_id : Uuid → RejectCause → Bool
open_with_id id c = c.id == id && c.is_open

-- A cached cause is the row but for its position.
unfoldable pub IsFresh : Option RejectCause → Option RejectCause → Type 0
IsFresh none row = Unit
IsFresh (some c) none = ⊥
IsFresh (some c) (some row) = record c { sort = row.sort } ≡ row

pub record IsCoherent (state : RejectCauses) : Type 0 where
  pub fresh_at : (id : Uuid) → IsFresh (state.cached id) (find (open_with_id id) state.causes)

-- An UPDATE that only writes positions.
resort-IsFresh :
    (p : RejectCause → Bool) (g : RejectCause → ℕ) (cached found : Option RejectCause)
    → IsFresh cached found
    → IsFresh cached (map_option (λ c. if p c then record c { sort = g c } else c) found)
unfolding IsFresh
resort-IsFresh p g none found h = tt
resort-IsFresh p g (some c) none h = h
resort-IsFresh p g (some c) (some r) h = elim (Bool-cases (p r)) [
  | inl e ↦ rw e (ap (λ (x : RejectCause). record x { sort = g r }) h)
  | inr e ↦ rw e h
]

-- A row that is written is no longer cached.
module _ (i : Uuid) (f : RejectCause → RejectCause)
    (same : (c : RejectCause) → (f c).id ≡ c.id) where
  other-IsFresh :
      (id : Uuid) (cached : Option RejectCause) (causes : List RejectCause)
      → IsFresh cached (find (open_with_id id) causes)
      → IsFresh
          (if id == i then none else cached)
          (find (open_with_id id) (update_where (λ c. c.id == i) f causes))
  unfolding IsFresh
  other-IsFresh id cached causes h = elim (Bool-cases (id == i)) [
    | inl e ↦ rw e tt
    | inr e ↦
        rw
          (
            e,
            find-update_where_other (open_with_id id) (λ c. c.id == i) f causes
                (λ c x. ground (arith, x, e)) (λ c x. ground (arith, x, e, same c)),
          )
          h
  ]

  update_row-IsCoherent :
      (s : RejectCauses) (events : List HistoryEvent)
      → IsCoherent s
      → IsCoherent record {
        causes = update_where (λ c. c.id == i) f s.causes;
        cached = invalidate_cache true i s.cached;
        events = events;
      }
  update_row-IsCoherent s events h = record {
    fresh_at = λ id. other-IsFresh id (s.cached id) s.causes (h.fresh_at id);
  }

append-IsFresh :
    (test : RejectCause → Bool) (cached : Option RejectCause) (causes new : List RejectCause)
    → IsFresh cached (find test causes)
    → IsFresh cached (find test (causes ++ new))
unfolding IsFresh
append-IsFresh test none causes new h = tt
append-IsFresh test (some c) causes new h = elim (Option-cases (find test causes)) [
  | inl missing ↦ absurd (subst (IsFresh (some c)) missing h)
  | inr (r, found) ↦ rw (find-append test r causes new found) (subst (IsFresh (some c)) found h)
]

create-IsCoherent :
    (new_id : Uuid) (dto : CreateRejectCauseDto) (admin_id : Option Uuid) (s s' : RejectCauses)
    → create new_id dto admin_id s ≡ ok s'
    → IsCoherent s
    → IsCoherent s'
unfolding create IsFresh
create-IsCoherent new_id dto admin_id s s' e h =
    let (u, unique, done) =
      >>=-eq-ok (ensure_name_is_unique (normalize_name dto.name) none s.causes) _ e in
    subst IsCoherent (ok-injective done) record {
      fresh_at = λ id. append-IsFresh (open_with_id id) (s.cached id) s.causes _ (h.fresh_at id);
    }

rewrite-IsFresh :
    (p : RejectCause → Bool) (g : RejectCause → ℕ) (id : Uuid) (cached : Option RejectCause)
    (causes : List RejectCause)
    → IsFresh cached (find (open_with_id id) causes)
    → IsFresh cached (find (open_with_id id) (update_where p (λ c. record c { sort = g c }) causes))
rewrite-IsFresh p g id cached causes h =
    rw (find-update_where (open_with_id id) p (λ c. record c { sort = g c }) causes (λ c. refl))
      (resort-IsFresh p g cached (find (open_with_id id) causes) h)

reposition-IsFresh :
    (id i : Uuid) (from to : ℕ) (cached : Option RejectCause) (causes : List RejectCause)
    → IsFresh cached (find (open_with_id id) causes)
    → IsFresh cached
        (find (open_with_id id) (reposition causes_by_sort cause_is_open i from to causes))
unfolding reposition shift
reposition-IsFresh id i from to cached causes h =
    rewrite-IsFresh (λ c. c.id == i) (λ c. to) id cached
      (shift causes_by_sort cause_is_open from to causes)
      (elim (Bool-cases (ltb to from)) [
        | inl e ↦ rw e (
            rewrite-IsFresh (λ c. c.is_open && (leb to c.sort && ltb c.sort from)) (λ c. c.sort + 1)
              id cached causes h)
        | inr e ↦ rw e (
            rewrite-IsFresh (λ c. c.is_open && (leb c.sort to && ltb from c.sort)) (λ c. c.sort - 1)
              id cached causes h)
      ])

update_sort-IsCoherent :
    (id : Uuid) (new_sort : ℕ) (admin_id : Option Uuid) (s s' : RejectCauses)
    → update_sort true id new_sort admin_id s ≡ ok s'
    → IsCoherent s
    → IsCoherent s'
unfolding update_sort write_sort IsFresh
update_sort-IsCoherent id new_sort admin_id s s' e h =
    let (existing, found, rest) = >>=-eq-ok (get_open_cause_or_throw id s.causes) _ e in
    let target = target_sort new_sort existing s.causes in
    elim (if-eq-ok (target == existing.sort) (ok s)
      (ok (write_sort true existing target admin_id s)) rest) [
        | inl (stay, done) ↦ subst IsCoherent (ok-injective done) h
        | inr (go, done) ↦ subst IsCoherent (ok-injective done) record {
          fresh_at = λ j. elim (Bool-cases (j == existing.id)) [
            | inl e ↦ rw e tt
            | inr e ↦ rw e (
                reposition-IsFresh j existing.id existing.sort target (s.cached j) s.causes
                  (h.fresh_at j))
          ];
        }
      ]

update-IsCoherent :
    (id : Uuid) (dto : UpdateRejectCauseDto) (admin_id : Option Uuid) (s s' : RejectCauses)
    → update true id dto admin_id s ≡ ok s'
    → IsCoherent s
    → IsCoherent s'
unfolding update update_data get_open_cause_or_throw
update-IsCoherent id dto admin_id s s' e h =
    let (existing, found, rest) = >>=-eq-ok (get_open_cause_or_throw id s.causes) _ e in
    let (u, unique, done) = >>=-eq-ok (ensure_new_name id dto.name s.causes) _ rest in
    let row = find_test (open_with_id id) existing s.causes (or_throw-eq-ok _ _ found) in
    let same : existing.id ≡ id = ground (arith, row) in
    let kept = update_row-IsCoherent id (update_data dto) (λ c. refl) s [] h in
    subst IsCoherent (ok-injective done) record { fresh_at = rw same (kept.fresh_at) }

delete-IsCoherent :
    (id : Uuid) (admin_id : Option Uuid) (s s' : RejectCauses)
    → delete true id admin_id s ≡ ok s'
    → IsCoherent s
    → IsCoherent s'
unfolding delete
delete-IsCoherent id admin_id s s' e h =
    let (existing, found, rest) = >>=-eq-ok (get_open_cause_or_throw id s.causes) _ e in
    let kept = update_row-IsCoherent id (λ c. record c { is_open = false }) (λ c. refl) s [] h in
    subst IsCoherent (ok-injective rest) record { fresh_at = kept.fresh_at }

written-IsFresh :
    (writable : Bool) (row : RejectCause) (id j : Uuid) (s : RejectCauses)
    → find (open_with_id id) s.causes ≡ some row
    → IsFresh (s.cached j) (find (open_with_id j) s.causes)
    → IsFresh (write_cache writable row id s.cached j) (find (open_with_id j) s.causes)
unfolding IsFresh
written-IsFresh false row id j s found h = h
written-IsFresh true row id j s found h = elim (Bool-cases (j == id)) [
  | inl same ↦ rw (same, (==_iff j id).0 same, found) refl
  | inr other ↦ rw other h
]

-- What was read was stored.
read_cache-some :
    (readable : Bool) (id : Uuid) (cached : Uuid → Option RejectCause) (c : RejectCause)
    → read_cache readable id cached ≡ some c
    → cached id ≡ some c
read_cache-some true id cached c e = e
read_cache-some false id cached c e = cc

find_one-IsCoherent :
    (readable writable : Bool) (id : Uuid) (c : RejectCause) (s s' : RejectCauses)
    → find_one readable writable id s ≡ ok (c, s')
    → IsCoherent s
    → IsCoherent s'
unfolding find_one get_open_cause_or_throw IsFresh
find_one-IsCoherent readable writable id c s s' e h =
    elim (Option-cases (read_cache readable id s.cached)) [
      | inr (hit, is_cached) ↦
          let opened = rw (find_one, is_cached) at e in
          subst IsCoherent (ap (λ (r : RejectCause × RejectCauses). r.1) (ok-injective opened)) h
      | inl missing ↦
          let opened = rw (find_one, missing) at e in
          let (row, found, done) = >>=-eq-ok (get_open_cause_or_throw id s.causes) _ opened in
          subst IsCoherent (ap (λ (r : RejectCause × RejectCauses). r.1) (ok-injective done))
            record {
              fresh_at = λ j.
                  written-IsFresh writable row id j s (or_throw-eq-ok _ _ found) (h.fresh_at j);
            }
    ]

-- Redis can be reached by a request that changes a cause.
unfoldable pub IsReached : {s t : RejectCauses} → Step s t → Type 0
IsReached (updated connected id dto admin_id s t e) = connected ≡ true
IsReached (sorted connected id new_sort admin_id s t e) = connected ≡ true
IsReached (deleted connected id admin_id s t e) = connected ≡ true
IsReached _ = Unit

unfoldable pub AreReached : {s t : RejectCauses} → Reach s t → Type 0
AreReached start = Unit
AreReached (after run step) = AreReached run × IsReached step

Step-IsCoherent :
    {s t : RejectCauses} (step : Step s t) → IsReached step → IsCoherent s → IsCoherent t
unfolding IsFresh IsReached
Step-IsCoherent (created new_id dto admin_id s t fresh e) reached h =
    create-IsCoherent new_id dto admin_id s t e h
Step-IsCoherent (updated connected id dto admin_id s t e) reached h =
    update-IsCoherent id dto admin_id s t (rw reached at e) h
Step-IsCoherent (sorted connected id new_sort admin_id s t e) reached h =
    update_sort-IsCoherent id new_sort admin_id s t (rw reached at e) h
Step-IsCoherent (deleted connected id admin_id s t e) reached h =
    delete-IsCoherent id admin_id s t (rw reached at e) h
Step-IsCoherent (was_read readable writable id c s t e) reached h =
    find_one-IsCoherent readable writable id c s t e h
Step-IsCoherent (expired id s) reached h = record {
  fresh_at = λ j. elim (Bool-cases (j == id)) [
    | inl same ↦ rw same tt
    | inr other ↦ rw other (h.fresh_at j)
  ];
}

Reach-IsCoherent :
    {s t : RejectCauses} (run : Reach s t) → AreReached run → IsCoherent s → IsCoherent t
unfolding AreReached
Reach-IsCoherent start reached h = h
Reach-IsCoherent (after run step) reached h =
    Step-IsCoherent step reached.1 (Reach-IsCoherent run reached.0 h)

row_of_cached :
    (c : RejectCause) (found : Option RejectCause)
    → IsFresh (some c) found
    → (row : RejectCause) × (found ≡ some row) × (record c { sort = row.sort } ≡ row)
unfolding IsFresh
row_of_cached c none h = absurd h
row_of_cached c (some row) h = (row, refl, h)

-- However the requests follow one another, if Redis could be reached by every update, move and deletion
-- that succeeded, what `findOne` returns, from the cache or not, is an open cause of the table with this
-- id, with its current name, description and activity; only its position may be an old one.
pub find_one-Reach :
    (readable writable : Bool) (id : Uuid) (c : RejectCause) (s t t' : RejectCauses)
    → IsCoherent s
    → (run : Reach s t) → AreReached run
    → find_one readable writable id t ≡ ok (c, t')
    → (row : RejectCause) × (find (open_with_id id) t.causes ≡ some row)
      × (record c { sort = row.sort } ≡ row)
unfolding find_one get_open_cause_or_throw IsFresh
find_one-Reach readable writable id c s t t' h run reached e =
    let fresh = (Reach-IsCoherent run reached h).fresh_at id in
    elim (Option-cases (read_cache readable id t.cached)) [
      | inr (hit, is_cached) ↦
          let opened = rw (find_one, is_cached) at e in
          let same : hit ≡ c = ap (λ (r : RejectCause × RejectCauses). r.0) (ok-injective opened) in
          row_of_cached c (find (open_with_id id) t.causes) (
            subst (λ x. IsFresh (some x) (find (open_with_id id) t.causes)) same
              (rw (read_cache-some readable id t.cached hit is_cached) at fresh))
      | inl missing ↦
          let opened = rw (find_one, missing) at e in
          let (row, found, done) = >>=-eq-ok (get_open_cause_or_throw id t.causes) _ opened in
          let same : row ≡ c = ap (λ (r : RejectCause × RejectCauses). r.0) (ok-injective done) in
          (
            row,
            or_throw-eq-ok _ _ found,
            ap (λ (x : RejectCause). record x { sort = row.sort }) (sym same),
          )
    ]
