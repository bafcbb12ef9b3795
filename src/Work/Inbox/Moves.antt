-- ===== src/Work/Inbox/Moves.antt =====
-- server/work/inbox.py: what an operation may do to the rows of `work_items`.
use agent_colab.Prelude.{
  str_eq, str_eq_iff, Bool-cases, All, String, ◌≡◌, refl, sym, ap, ◌∙◌, subst, inl, inr, true,
  false, some, List, [], ◌∷◌, ◌++◌,
}
use agent_colab.Work.State.{is_terminal}
use agent_colab.Work.State.Timing.{IsTimed}
use agent_colab.Work.Inbox.Rows.{WorkItem, find_item, set_item}

-- The timestamps of a row are those of its status.
unfoldable pub IsTimedItem : WorkItem → Type 0
unfolding IsTimed
IsTimedItem item = IsTimed item.status item.delivered_at item.acked_at

-- A change of one row: it keeps the id, starts in a state that is not terminal, and leaves a row whose
-- timestamps are those of its new status.
unfoldable pub IsMove : WorkItem → WorkItem → Type 0
unfolding IsTimedItem is_terminal
IsMove old new =
    (new.work_item_id ≡ old.work_item_id)
    × (is_terminal old.status ≡ false)
    × (IsTimedItem old → IsTimedItem new)

-- The changes of the table.
pub data Moves : List WorkItem → List WorkItem → Type 0 where
  none_moved : {items : List WorkItem} → Moves items items
  one_moved :
      {items : List WorkItem} (work_item_id : String) (f : WorkItem → WorkItem) (item : WorkItem)
      → find_item work_item_id items ≡ some item
      → IsMove item (f item)
      → Moves items (set_item work_item_id f items)
  one_added :
      {items : List WorkItem} (item : WorkItem)
      → IsTimedItem item
      → Moves items (items ++ item ∷ [])
  both : {a b c : List WorkItem} → Moves a b → Moves b c → Moves a c

module _ (key : String) (row : WorkItem) (rest : List WorkItem) where
  find-head : str_eq row.work_item_id key ≡ true → find_item key (row ∷ rest) ≡ some row
  unfolding find_item
  find-head e = rw e refl

  find-tail : str_eq row.work_item_id key ≡ false → find_item key (row ∷ rest) ≡ find_item key rest
  unfolding find_item
  find-tail e = rw e refl

  set-head :
      (f : WorkItem → WorkItem)
      → str_eq row.work_item_id key ≡ true
      → set_item key f (row ∷ rest) ≡ f row ∷ rest
  unfolding set_item
  set-head f e = rw e refl

  set-tail :
      (f : WorkItem → WorkItem)
      → str_eq row.work_item_id key ≡ false
      → set_item key f (row ∷ rest) ≡ row ∷ set_item key f rest
  unfolding set_item
  set-tail f e = rw e refl

pub find_item-id :
    (key : String) (items : List WorkItem) (item : WorkItem)
    → find_item key items ≡ some item
    → item.work_item_id ≡ key
unfolding find_item
find_item-id key [] item h = cc
find_item-id key (row ∷ rest) item h = elim (Bool-cases (str_eq row.work_item_id key)) [
  | inl e ↦ cc (h, find-head key row rest e, (str_eq_iff row.work_item_id key).0 e)
  | inr e ↦ find_item-id key rest item (sym (find-tail key row rest e) ∙ h)
]

module _ (key changed : String) (f : WorkItem → WorkItem) (old item : WorkItem) where
  -- A terminal row stays as it is when another row, or none, is changed.
  frozen_set :
      (items : List WorkItem)
      → find_item changed items ≡ some old
      → (f old).work_item_id ≡ old.work_item_id
      → is_terminal old.status ≡ false
      → find_item key items ≡ some item
      → is_terminal item.status ≡ true
      → find_item key (set_item changed f items) ≡ some item
  unfolding find_item
  frozen_set [] o s u h t = cc
  frozen_set (row ∷ rest) o s u h t = elim (Bool-cases (str_eq row.work_item_id changed)) [
    | inl e ↦ elim (Bool-cases (str_eq row.work_item_id key)) [
      | inl k ↦ cc (find-head changed row rest e, find-head key row rest k, o, h, u, t)
      | inr k ↦
          ap (find_item key) (set-head changed row rest f e)
          ∙ find-tail key (f row) rest (same_id (cc (o, find-head changed row rest e)) k)
          ∙ sym (find-tail key row rest k)
          ∙ h
    ]
    | inr e ↦ elim (Bool-cases (str_eq row.work_item_id key)) [
      | inl k ↦
          ap (find_item key) (set-tail changed row rest f e)
          ∙ find-head key row (set_item changed f rest) k
          ∙ sym (find-head key row rest k)
          ∙ h
      | inr k ↦
          ap (find_item key) (set-tail changed row rest f e)
          ∙ find-tail key row (set_item changed f rest) k
          ∙ frozen_set rest (sym (find-tail changed row rest e) ∙ o) s u
              (sym (find-tail key row rest k) ∙ h) t
    ]
  ]
    where
      same_id :
          row ≡ old → str_eq row.work_item_id key ≡ false → str_eq (f row).work_item_id key ≡ false
      same_id r k =
          rw
            (ap (λ z. str_eq z key)
              (ap (λ z. (f z).work_item_id) r ∙ s ∙ ap (λ z. z.work_item_id) (sym r)))
            k

frozen_add :
    (key : String) (items more : List WorkItem) (item : WorkItem)
    → find_item key items ≡ some item
    → find_item key (items ++ more) ≡ some item
unfolding find_item
frozen_add key [] more item h = cc
frozen_add key (row ∷ rest) more item h = elim (Bool-cases (str_eq row.work_item_id key)) [
  | inl e ↦ find-head key row (rest ++ more) e ∙ sym (find-head key row rest e) ∙ h
  | inr e ↦
      find-tail key row (rest ++ more) e
      ∙ frozen_add key rest more item (sym (find-tail key row rest e) ∙ h)
]

-- Rows in a terminal state never change again.
pub Moves-frozen :
    {a b : List WorkItem}
    → Moves a b
    → (key : String) (item : WorkItem) → find_item key a ≡ some item
    → is_terminal item.status ≡ true
    → find_item key b ≡ some item
unfolding IsMove
Moves-frozen none_moved key item h t = h
Moves-frozen (one_moved {items = items} changed f old o m) key item h t =
    frozen_set key changed f old item items o m.0 m.1 h t
Moves-frozen (one_added {items = items} new _) key item h t = frozen_add key items (new ∷ []) item h
Moves-frozen (both p q) key item h t = Moves-frozen q key item (Moves-frozen p key item h t) t

timed_set :
    (changed : String) (f : WorkItem → WorkItem) (old : WorkItem) (items : List WorkItem)
    → find_item changed items ≡ some old
    → (IsTimedItem old → IsTimedItem (f old))
    → All IsTimedItem items
    → All IsTimedItem (set_item changed f items)
unfolding find_item
timed_set changed f old [] o m h = cc
timed_set changed f old (row ∷ rest) o m h = elim (Bool-cases (str_eq row.work_item_id changed)) [
  | inl e ↦ rw (set-head changed row rest f e) (moved (cc (o, find-head changed row rest e)), h.1)
  | inr e ↦
      rw (set-tail changed row rest f e)
        (h.0, timed_set changed f old rest (sym (find-tail changed row rest e) ∙ o) m h.1)
]
  where
    moved : row ≡ old → IsTimedItem (f row)
    moved r = subst (λ z. IsTimedItem (f z)) (sym r) (m (subst IsTimedItem r h.0))

timed_add :
    (items : List WorkItem) (item : WorkItem)
    → IsTimedItem item
    → All IsTimedItem items
    → All IsTimedItem (items ++ item ∷ [])
timed_add [] item t h = (t, tt)
timed_add (row ∷ rest) item t h = (h.0, timed_add rest item t h.1)

-- A table of rows whose timestamps are those of their statuses stays one.
pub Moves-timed : {a b : List WorkItem} → Moves a b → All IsTimedItem a → All IsTimedItem b
unfolding IsMove
Moves-timed none_moved h = h
Moves-timed (one_moved {items = items} changed f old o m) h = timed_set changed f old items o m.2 h
Moves-timed (one_added {items = items} new t) h = timed_add items new t h
Moves-timed (both p q) h = Moves-timed q (Moves-timed p h)
