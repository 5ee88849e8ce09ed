-- ===== src/Request/Records.antt =====
-- `RequestRegistry::records` of garwarp/src/request.rs, and the order in which the map is iterated.
use garwarp.Base.{◌||◌, List, [], ◌∷◌, map, ◌≡◌, refl, ap, sym, ◌∙◌, arith, Text, text_eq}
use garwarp.Base.Map.{Map, IsMap, get, is_some, values}
use garwarp.Base.Map.All.{All}
use garwarp.Base.Map.Reorder.{
  Reorder, nil, cons, swap, trans, distinct_keys, get-Reorder, All-Reorder,
}
use garwarp.Base.Sort.{sort_by, insert_by}
use garwarp.Base.Sort.Order.{IsSorted, sort_by-IsSorted, insert_by_comm, contains}
use garwarp.Request.Types.{RequestEntry, RequestRecord}
use garwarp.Request.{RequestRegistry, to_record, records}
use garwarp.Request.Invariant.{IsWf, IsKeyed}
use garwarp.Request.Lookup.{entry_at}

abbrev pub record_id : RequestRecord → Text
record_id saved = saved.id

-- The records are sorted by their ids.
pub records-IsSorted : (r : RequestRegistry) → IsSorted record_id (records r)
unfolding records
records-IsSorted r = sort_by-IsSorted record_id (map to_record (values r.entries))

pub contains-insert_by :
    (j : Text) (x : RequestRecord) (xs : List RequestRecord)
    → contains j (map record_id (insert_by record_id x xs))
      ≡ (text_eq x.id j || contains j (map record_id xs))
unfolding contains insert_by
contains-insert_by j x [] = refl
contains-insert_by j x (y ∷ ys) = ground (arith, contains-insert_by j x ys)

pub contains-records :
    (j : Text) (m : Map RequestEntry)
    → All IsKeyed m
    → contains j (map record_id (sort_by record_id (map to_record (values m)))) ≡ is_some (get j m)
unfolding contains sort_by values get to_record
contains-records j [] k = refl
contains-records j ((i, entry) ∷ m) k = ground (
  arith,
  contains-insert_by j (to_record entry) (sort_by record_id (map to_record (values m))),
  contains-records j m k.1,
)

-- The ids of the records are exactly the ids that are taken.
pub records_exact :
    (r : RequestRegistry) (j : Text)
    → IsWf r
    → contains j (map record_id (records r)) ≡ is_some (entry_at r j)
unfolding records entry_at
records_exact r j wf = contains-records j r.entries wf.keyed

abbrev sorted_records : Map RequestEntry → List RequestRecord
sorted_records m = sort_by record_id (map to_record (values m))

-- Two entries under distinct keys are sorted the same in either order.
sorted_records-swap :
    (k j : Text) (v w : RequestEntry) (m : Map RequestEntry)
    → v.id ≡ k
    → w.id ≡ j
    → IsMap ((k, v) ∷ (j, w) ∷ m)
    → sorted_records ((k, v) ∷ (j, w) ∷ m) ≡ sorted_records ((j, w) ∷ (k, v) ∷ m)
unfolding sort_by values to_record
sorted_records-swap k j v w m vk wj h =
    insert_by_comm record_id (to_record v) (to_record w) (sorted_records m)
      (λ e. distinct_keys k j v w m h (sym vk ∙ e ∙ wj))

sorted_records-Reorder :
    {m n : Map RequestEntry}
    → Reorder m n
    → IsMap m
    → All IsKeyed m
    → sorted_records m ≡ sorted_records n
unfolding sort_by values
sorted_records-Reorder nil h k = refl
sorted_records-Reorder (cons key v p) h k =
    ap (insert_by record_id (to_record v)) (sorted_records-Reorder p h.1 k.1)
sorted_records-Reorder (swap key j v w m) h k = sorted_records-swap key j v w m k.0 k.1.0 h
sorted_records-Reorder (trans p q) h k =
    sorted_records-Reorder p h k
    ∙ sorted_records-Reorder q (get-Reorder p h).1 (All-Reorder IsKeyed p k)

-- The records do not depend on the order in which the map is iterated.
pub records-Reorder :
    (r s : RequestRegistry) → IsWf r → Reorder r.entries s.entries → records r ≡ records s
unfolding records
records-Reorder r s wf p = sorted_records-Reorder p wf.distinct wf.keyed
