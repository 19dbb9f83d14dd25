-- ===== src/Tests/Disk.antt =====
-- A key-value engine in memory, and a random generator that counts.
use chain_db.Base.{
  ℕ, suc, ◌≡◌, ◌≢◌, refl, ◌⊎◌, inr, Bool, true, false, Option, none, some, List, arith,
  if◌then◌else◌, sym, ◌∙◌, length, replicate, length-replicate,
}
use chain_db.Base.Bytes.{Bytes, bytes_eq, bytes_eq_iff, bytes_eq_refl}
use chain_db.Platform.Engine.{
  Options, ReadOptions, WriteOptions, Engine, IsEngine, IsReliable, Table, empty_table, apply_batch,
}
use chain_db.Platform.Rng.{Rng, IsRng}

pub record Disk : Type 0 where
  pub tables : Bytes → Option Table
  pub held : Bytes → Bool
  pub seed : ℕ

abbrev pub blank_disk : Disk
blank_disk = record { tables = λ _. none; held = λ _. false; seed = 0 }

abbrev pub update : {A : Type 0} → (Bytes → A) → Bytes → A → Bytes → A
update f p a q = if bytes_eq p q then a else f q

abbrev pub opened_disk : Bytes → Disk → Disk
opened_disk p w = record w { held = update w.held p true }

abbrev open_absent : Options → Bytes → Disk → Option Bytes × Disk
open_absent o p w =
    if o.create_if_missing
    then (some p, opened_disk p (record w { tables = update w.tables p (some empty_table) }))
    else (none, w)

abbrev open_there : Options → Bytes → Disk → Option Bytes × Disk
open_there o p w = if o.error_if_exists then (none, w) else (some p, opened_disk p w)

unfoldable pub open_disk : Options → Bytes → Disk → Option Bytes × Disk
open_disk o p w =
    if w.held p
    then (none, w)
    else elim (w.tables p) [ none ↦ open_absent o p w | some t ↦ open_there o p w ]

abbrev pub close_disk : Bytes → Disk → Disk
close_disk p w = record w { held = update w.held p false }

abbrev pub get_disk : ReadOptions → Bytes → Bytes → Disk → Option Bytes
get_disk o p k w = elim (w.tables p) [ none ↦ none | some t ↦ t k ]

abbrev pub write_disk : WriteOptions → Bytes → List (Bytes × Bytes) → Disk → Bool × Disk
write_disk o p b w = elim (w.tables p) [
  | none ↦ (true, w)
  | some t ↦ (true, record w { tables = update w.tables p (some (apply_batch t b)) })
]

abbrev pub destroy_disk : Bytes → Disk → Bool × Disk
destroy_disk p w =
    if w.held p then (false, w) else (true, record w { tables = update w.tables p none })

abbrev pub disk_engine : Engine Disk
disk_engine = record {
  Handle = Bytes;
  open_db = open_disk;
  close_db = close_disk;
  get = get_disk;
  write = write_disk;
  destroy_db = destroy_disk;
}

pub update_self : {A : Type 0} (f : Bytes → A) (p : Bytes) (a : A) → update f p a p ≡ a
update_self f p a = rw (bytes_eq_refl p)

pub update_ne :
    {A : Type 0} (f : Bytes → A) (p : Bytes) (a : A) (q : Bytes) → p ≢ q → update f p a q ≡ f q
update_ne f p a q ne = ground (arith, bytes_eq_iff p q)

module _ (o : Options) (p : Bytes) (w : Disk) where
  pub open_disk-target : (h : Bytes) → (open_disk o p w).0 ≡ some h → h ≡ p
  unfolding open_disk
  open_disk-target h e = ground arith

  pub open_disk-present :
      o.create_if_missing ≡ false → (open_disk o p w).0 ≢ none → w.tables p ≢ none
  unfolding open_disk
  open_disk-present c n e = ground arith

  pub open_disk-fresh :
      o.create_if_missing ≡ true
      → o.error_if_exists ≡ true
      → (open_disk o p w).0 ≢ none
      → (w.tables p ≡ none) × ((open_disk o p w).1.tables p ≡ some empty_table)
  unfolding open_disk
  open_disk-fresh c e n = ground (arith, update_self w.tables p (some empty_table))

  pub open_disk-at_most :
      w.tables p ≡ none
      → ((open_disk o p w).1.tables p ≡ none) ⊎ ((open_disk o p w).1.tables p ≡ some empty_table)
  unfolding open_disk
  open_disk-at_most e = ground (arith, update_self w.tables p (some empty_table))

  pub open_disk-plain :
      (q : Bytes) → o.create_if_missing ≡ false → (open_disk o p w).1.tables q ≡ w.tables q
  unfolding open_disk
  open_disk-plain q c = ground arith

  pub open_disk-keeps :
      (q : Bytes) (t : Table) → w.tables q ≡ some t → (open_disk o p w).1.tables q ≡ some t
  unfolding open_disk
  open_disk-keeps q t e = ground (arith, bytes_eq_iff p q)

  pub open_disk-keeps_others : (q : Bytes) → p ≢ q → (open_disk o p w).1.tables q ≡ w.tables q
  unfolding open_disk
  open_disk-keeps_others q n = ground (arith, bytes_eq_iff p q)

  pub open_disk-unlocked : (open_disk o p w).0 ≢ none → w.held p ≡ false
  unfolding open_disk
  open_disk-unlocked n = ground arith

  pub open_disk-locks : (open_disk o p w).0 ≢ none → (open_disk o p w).1.held p ≡ true
  unfolding open_disk
  open_disk-locks n = ground (arith, bytes_eq_refl p)

  pub open_disk-failed_locks :
      (q : Bytes) → (open_disk o p w).0 ≡ none → (open_disk o p w).1.held q ≡ w.held q
  unfolding open_disk
  open_disk-failed_locks q n = ground arith

  pub open_disk-other_locks : (q : Bytes) → p ≢ q → (open_disk o p w).1.held q ≡ w.held q
  unfolding open_disk
  open_disk-other_locks q n = ground (arith, bytes_eq_iff p q)

  pub open_disk-ready :
      o.create_if_missing ≡ false
      → o.error_if_exists ≡ false
      → w.tables p ≢ none
      → w.held p ≡ false
      → (open_disk o p w).0 ≢ none
  unfolding open_disk
  open_disk-ready c e n l = ground arith

  pub open_disk-create_ready :
      o.create_if_missing ≡ true → w.tables p ≡ none → w.held p ≡ false → (open_disk o p w).0 ≢ none
  unfolding open_disk
  open_disk-create_ready c n l = ground arith

pub write_disk-ok :
    (o : WriteOptions) (h : Bytes) (b : List (Bytes × Bytes)) (w : Disk) (t : Table)
    → w.tables h ≡ some t
    → (write_disk o h b w).1.tables h ≡ some (apply_batch t b)
write_disk-ok o h b w t e = ground (arith, update_self w.tables h (some (apply_batch t b)))

pub write_disk-keeps_others :
    (o : WriteOptions) (h : Bytes) (b : List (Bytes × Bytes)) (w : Disk) (q : Bytes)
    → h ≢ q
    → (write_disk o h b w).1.tables q ≡ w.tables q
write_disk-keeps_others o h b w q n = ground (arith, bytes_eq_iff h q)

pub write_disk-locks :
    (o : WriteOptions) (h : Bytes) (b : List (Bytes × Bytes)) (w : Disk) (q : Bytes)
    → (write_disk o h b w).1.held q ≡ w.held q
write_disk-locks o h b w q = ground arith

pub write_disk-ready :
    (o : WriteOptions) (h : Bytes) (b : List (Bytes × Bytes)) (w : Disk)
    → (write_disk o h b w).0 ≡ true
write_disk-ready o h b w = ground arith

module _ (p : Bytes) (w : Disk) where
  pub destroy_disk-ok : (destroy_disk p w).0 ≡ true → (destroy_disk p w).1.tables p ≡ none
  destroy_disk-ok e = ground (arith, bytes_eq_refl p)

  pub destroy_disk-keeps_others : (q : Bytes) → p ≢ q → (destroy_disk p w).1.tables q ≡ w.tables q
  destroy_disk-keeps_others q n = ground (arith, bytes_eq_iff p q)

  pub destroy_disk-ready : w.held p ≡ false → (destroy_disk p w).0 ≡ true
  destroy_disk-ready free = ground arith

  pub destroy_disk-locked :
      (t : Table)
      → w.held p ≡ true
      → w.tables p ≡ some t
      → ((destroy_disk p w).0 ≡ false) × ((destroy_disk p w).1.tables p ≡ some t)
  destroy_disk-locked t l e = ground arith

  pub destroy_disk-locks : (q : Bytes) → (destroy_disk p w).1.held q ≡ w.held q
  destroy_disk-locks q = ground arith

pub get_disk-stored :
    (o : ReadOptions) (h k : Bytes) (w : Disk) (t : Table)
    → w.tables h ≡ some t
    → get_disk o h k w ≡ t k
get_disk-stored o h k w t e = ground arith

abbrev pub disk_engine-IsEngine : IsEngine disk_engine
disk_engine-IsEngine = record {
  content = λ w. w.tables;
  locked = λ w. w.held;
  target = λ h. h;
  open_target = open_disk-target;
  open_present = open_disk-present;
  open_fresh = open_disk-fresh;
  open_at_most = open_disk-at_most;
  open_plain = open_disk-plain;
  open_keeps = open_disk-keeps;
  open_keeps_others = open_disk-keeps_others;
  open_unlocked = open_disk-unlocked;
  open_locks = open_disk-locks;
  open_failed_locks = open_disk-failed_locks;
  open_other_locks = open_disk-other_locks;
  close_keeps = λ h w q. refl;
  close_unlocks = λ h w. update_self w.held h false;
  close_other_locks = λ h w q n. update_ne w.held h false q n;
  get_stored = λ o h k w t v c e g. sym (get_disk-stored o h k w t e) ∙ g;
  write_ok = λ o h b w t e x. write_disk-ok o h b w t e;
  write_atomic = λ o h b w t e. inr (write_disk-ok o h b w t e);
  write_keeps_others = write_disk-keeps_others;
  write_locks = write_disk-locks;
  destroy_ok = destroy_disk-ok;
  destroy_keeps_others = destroy_disk-keeps_others;
  destroy_locked = destroy_disk-locked;
  destroy_locks = destroy_disk-locks;
}

abbrev pub disk_engine-IsReliable : IsReliable disk_engine disk_engine-IsEngine
disk_engine-IsReliable = record {
  destroy_ready = destroy_disk-ready;
  open_ready = open_disk-ready;
  create_ready = open_disk-create_ready;
  get_ready = λ o h k w t l e. get_disk-stored o h k w t e;
  write_ready = λ o h b w l. write_disk-ready o h b w;
}

abbrev fill_seed : ℕ → Disk → Option Bytes × Disk
fill_seed n w = (some (replicate n w.seed), record w { seed = suc w.seed })

abbrev pub disk_rng : Rng Disk
disk_rng = record {
  rand_status = λ w. (true, w);
  rand_poll = λ w. (true, w);
  rand_bytes = fill_seed;
  rand_priv_bytes = fill_seed;
}

pub fill_seed-length : (n : ℕ) (w : Disk) (b : Bytes) → (fill_seed n w).0 ≡ some b → length b ≡ n
fill_seed-length n w b e = ground (arith, length-replicate n w.seed)

abbrev pub disk_rng-IsRng : IsRng disk_rng (λ (w : Disk). w.tables) (λ (w : Disk). w.held)
disk_rng-IsRng = record {
  size = fill_seed-length;
  priv_size = fill_seed-length;
  keeps = λ n w p. refl;
  priv_keeps = λ n w p. refl;
  keeps_locks = λ n w p. refl;
  status_keeps = λ w p. refl;
  poll_keeps = λ w p. refl;
  status_keeps_locks = λ w p. refl;
  poll_keeps_locks = λ w p. refl;
  priv_keeps_locks = λ n w p. refl;
}
