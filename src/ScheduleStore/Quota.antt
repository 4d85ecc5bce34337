-- ===== src/ScheduleStore/Quota.antt =====
-- The quotas and the tenants of internal/db/schedulestore.go.
use distributed_scheduler.Prelude.{
  ℕ, suc, ◌+◌, ◌-◌, ◌≤◌, ◌<◌, ◌≡◌, ◌≢◌, refl, sym, ap, ◌∙◌, String, Bool, true, false, not, List,
  [], ◌∷◌, arith, matching, matching-append, select, update, leb, str_eq, eq_iff, Bool-cases, inl,
  inr,
}
use distributed_scheduler.Models.{Schedule}
use distributed_scheduler.Db.{
  Db, Env, Link, Session, return, guard, throw, continue, ◌>>=◌, ◌>>◌, statement,
}
use distributed_scheduler.ScheduleStore.{
  of_tenant, owned, schedule_quota, new_schedule, count_schedules, read_quota, insert_schedule,
  others_write, create_schedule, toggle_schedule, delete_rows, delete_schedule,
}

abbrev pub schedules_of : String → Db → ℕ
schedules_of tenant_id d = matching (of_tenant tenant_id) d.schedules

module _ (e : Env) (x : Schedule) (tenant_id : String) where
  insert-counts :
      (s : Session) (l : Link)
      → e.link s.sent ≡ l
      → let t = (insert_schedule e x s).1 in
        (schedules_of tenant_id t.db ≤ suc (schedules_of tenant_id s.db))
        × (t.db.quotas ≡ s.db.quotas)
        × (str_eq x.tenant_id tenant_id ≡ false
            → schedules_of tenant_id t.db ≡ schedules_of tenant_id s.db)
  unfolding insert_schedule statement
  insert-counts s Link.answered l =
      let added = matching-append (of_tenant tenant_id) s.db.schedules (new_schedule e s.sent x) in
      (ground (arith, l, added.0), ground (arith, l), λ ne. ground (arith, l, added.1, ne))
  insert-counts s Link.request_lost l =
      (ground (arith, l), ground (arith, l), λ ne. ground (arith, l))
  insert-counts s Link.reply_lost l =
      let added = matching-append (of_tenant tenant_id) s.db.schedules (new_schedule e s.sent x) in
      (ground (arith, l, added.0), ground (arith, l), λ ne. ground (arith, l, added.1, ne))

  module _ (meanwhile : List Schedule → List Schedule) (s : Session) where
    -- The session after the two reads, and after what the others do then.
    abbrev pub resumed : Session
    resumed = record s {
      db = record s.db { schedules = meanwhile s.db.schedules };
      sent = suc (suc s.sent);
    }

    -- No more above the quota than what the others have added since the count.
    abbrev pub IsWithin : Db → Type 0
    IsWithin d =
        schedules_of tenant_id d
        ≤ schedule_quota tenant_id d
          + (schedules_of tenant_id resumed.db - schedules_of tenant_id s.db)

    -- The insert, after a count that leaves room.
    insert-IsWithin :
        schedules_of x.tenant_id s.db < schedule_quota x.tenant_id s.db
        → schedules_of tenant_id s.db ≤ schedule_quota tenant_id s.db
        → IsWithin (insert_schedule e x resumed).1.db
          × ((insert_schedule e x resumed).1.db.quotas ≡ s.db.quotas)
    insert-IsWithin room within =
        let (added, same, apart) = insert-counts resumed (e.link resumed.sent) refl in
        let limit = ap (λ qs. schedule_quota tenant_id (record s.db { quotas = qs })) same in
        elim (Bool-cases (str_eq x.tenant_id tenant_id)) [
          | inl own ↦
              let path = (eq_iff x.tenant_id tenant_id).0 own in
              let counts = ap (λ t. schedules_of t s.db) path in
              let limits = ap (λ t. schedule_quota t s.db) path in
              (omega (arith, added, counts, limits, limit, room), same)
          | inr ne ↦ let kept = apart ne in (omega (arith, kept, limit, within), same)
        ]

    create-IsWithin :
        (l l' : Link)
        → e.link s.sent ≡ l
        → e.link (suc s.sent) ≡ l'
        → schedules_of tenant_id s.db ≤ schedule_quota tenant_id s.db
        → IsWithin (create_schedule e meanwhile x s).1.db
          × ((create_schedule e meanwhile x s).1.db.quotas ≡ s.db.quotas)
    unfolding create_schedule others_write count_schedules read_quota statement guard continue
        return throw ◌>>=◌ ◌>>◌
    create-IsWithin Link.request_lost l' l i within = (ground (arith, l, within), ground (arith, l))
    create-IsWithin Link.reply_lost l' l i within = (ground (arith, l, within), ground (arith, l))
    create-IsWithin Link.answered Link.request_lost l i within =
        (ground (arith, l, i, within), ground (arith, l, i))
    create-IsWithin Link.answered Link.reply_lost l i within =
        (ground (arith, l, i, within), ground (arith, l, i))
    create-IsWithin Link.answered Link.answered l i within =
        let count = schedules_of x.tenant_id s.db in
        elim (Bool-cases (leb (schedule_quota x.tenant_id s.db) count)) [
          | inl full ↦ (ground (arith, l, i, full, within), ground (arith, l, i, full))
          | inr room ↦
              let (bound, same) = insert-IsWithin (ground arith) within in
              (ground (arith, l, i, room, bound), ground (arith, l, i, room, same))
        ]

-- CreateSchedule, whatever becomes of its statements and whichever tenant asks, and whatever other
-- sessions do with the schedules between its count and its insert: a tenant within its quota at the
-- count, which is fifty where the table of quotas has no row of the tenant, is above it afterwards by
-- at most the schedules that the others have added since the count; and no quota changes. The count
-- and the insert are not one transaction, so that the quota may be passed where the others add any.
pub create_schedule-quota :
    (e : Env) (meanwhile : List Schedule → List Schedule) (x : Schedule) (s : Session)
    (tenant_id : String)
    → schedules_of tenant_id s.db ≤ schedule_quota tenant_id s.db
    → let t = (create_schedule e meanwhile x s).1 in
      (schedules_of tenant_id t.db
        ≤ schedule_quota tenant_id t.db
          + (matching (of_tenant tenant_id) (meanwhile s.db.schedules)
              - schedules_of tenant_id s.db))
      × (t.db.quotas ≡ s.db.quotas)
create_schedule-quota e meanwhile x s tenant_id within =
    create-IsWithin e x tenant_id meanwhile s _ _ refl refl within

-- A delete or an update where no row of another tenant is meant.
module _ (e : Env) (schedule_id tenant_id other : String)
    (ne : str_eq tenant_id other ≡ false) where
  not_other : (y : Schedule) → owned schedule_id tenant_id y ≡ true → of_tenant other y ≡ false
  not_other y t = elim (Bool-cases (of_tenant other y)) [
    | inr f ↦ f
    | inl h ↦
        let mine : of_tenant tenant_id y ≡ true = ground arith in
        let same =
          (eq_iff tenant_id other).1
            (sym ((eq_iff y.tenant_id tenant_id).0 mine) ∙ (eq_iff y.tenant_id other).0 h) in
        absurd (ground (arith, ne, same))
  ]

  select_spared :
      (xs : List Schedule)
      → select (of_tenant other) (select (λ y. not (owned schedule_id tenant_id y)) xs)
        ≡ select (of_tenant other) xs
  unfolding select
  select_spared [] = refl
  select_spared (y ∷ xs) = ground (arith, not_other y, select_spared xs)

  update_spared :
      (b : Bool) (xs : List Schedule)
      → select
          (of_tenant other)
          (update (owned schedule_id tenant_id) (λ y. record y { enabled = b }) xs)
        ≡ select (of_tenant other) xs
  unfolding select update
  update_spared b [] = refl
  update_spared b (y ∷ xs) = ground (arith, not_other y, update_spared b xs)

  spared :
      (s : Session) (b : Bool) (l : Link)
      → e.link s.sent ≡ l
      → let toggled = (toggle_schedule e schedule_id tenant_id b s).1 in
        let deleted = (delete_schedule e schedule_id tenant_id s).1 in
        (select (of_tenant other) toggled.db.schedules ≡ select (of_tenant other) s.db.schedules)
        × (select (of_tenant other) deleted.db.schedules ≡ select (of_tenant other) s.db.schedules)
  unfolding toggle_schedule delete_schedule delete_rows statement guard continue return throw ◌>>=◌
  spared s b Link.answered l = (
    ground (arith, l, update_spared b s.db.schedules),
    ground (arith, l, select_spared s.db.schedules),
  )
  spared s b Link.request_lost l = (ground (arith, l), ground (arith, l))
  spared s b Link.reply_lost l = (
    ground (arith, l, update_spared b s.db.schedules),
    ground (arith, l, select_spared s.db.schedules),
  )

-- Whatever schedule a tenant names, and whatever becomes of the statement, its toggles and deletes
-- leave the schedules of another tenant as they are.
pub other_tenants_spared :
    (e : Env) (schedule_id tenant_id other : String) (enabled : Bool) (s : Session)
    → tenant_id ≢ other
    → let toggled = (toggle_schedule e schedule_id tenant_id enabled s).1 in
      let deleted = (delete_schedule e schedule_id tenant_id s).1 in
      (select (of_tenant other) toggled.db.schedules ≡ select (of_tenant other) s.db.schedules)
      × (select (of_tenant other) deleted.db.schedules ≡ select (of_tenant other) s.db.schedules)
other_tenants_spared e schedule_id tenant_id other enabled s ne =
    spared e schedule_id tenant_id other (ground (arith, eq_iff tenant_id other, ne)) s enabled _
      refl
