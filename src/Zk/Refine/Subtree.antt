-- ===== src/Zk/Refine/Subtree.antt =====
-- zk_client.hpp, `make_recursive_erase_query_`: the query for a tree of entries.
use liboffkv.Base.{
  ℕ, zero, suc, ◌<◌, ◌≤◌, max, ◌≡◌, refl, Bytes, List, [], ◌∷◌, ◌++◌, Option, some, append-nil,
  append_assoc, arith,
}
use liboffkv.Errors.{ok}
use liboffkv.Zk.Service.{Op, done, Zk}
use liboffkv.Zk.Session.{State, Run}
use liboffkv.Zk.Erase.{
  EraseQueryFailures, ignore_no_entry, child_path, each_child, erase_children,
  make_recursive_erase_query,
}

-- The entries below a path: the first child by its name, what is below it, and the children after it.
pub data Forest : Type 0 where
  leaf : Forest
  child : (name : Bytes) → (below : Forest) → (more : Forest) → Forest

unfoldable pub names : Forest → List Bytes
names leaf = []
names (child name below more) = name ∷ names more

-- The number of levels.
unfoldable pub height : Forest → ℕ
height leaf = 0
height (child name below more) = max (suc (height below)) (height more)

-- The erasures of the entries below a path, each one after those of the entries below it.
unfoldable pub post_order : Bytes → Forest → List Op
post_order path leaf = []
post_order path (child name below more) =
    post_order (child_path path name) below
    ++ Op.erase (child_path path name) ∷ post_order path more

module _ (p : Zk) where
  -- The service lists this tree below the path, and the listing changes nothing.
  unfoldable pub Below : p.World → Bytes → Forest → Type 0
  Below w path leaf = Unit
  Below w path (child name below more) =
      (p.get_children (child_path path name) w ≡ (done (names below), w))
      × Below w (child_path path name) below
      × Below w path more

  -- As `Below`, with the path itself.
  abbrev pub Lists : p.World → Bytes → Forest → Type 0
  Lists w path f = (p.get_children path w ≡ (done (names f), w)) × Below w path f

  module _ (s : State p) where
    abbrev visit : ℕ → Bytes → Bytes → List Op → Run p (Option (List Op))
    visit depth path name =
        make_recursive_erase_query p depth ignore_no_entry (child_path path name)

    query_step :
        (depth : ℕ) (behavior : EraseQueryFailures) (path : Bytes) (query : List Op) (f : Forest)
        → p.get_children path s.world ≡ (done (names f), s.world)
        → each_child p (visit depth path) (names f) query s
          ≡ (ok (some (query ++ post_order path f)), s)
        → make_recursive_erase_query p (suc depth) behavior path query s
          ≡ (ok (some (query ++ post_order path f ++ Op.erase path ∷ [])), s)
    unfolding make_recursive_erase_query erase_children
    query_step depth behavior path query f listed visited =
        rw (listed, visited) (rw append_assoc refl)

    each_child-post_order :
        (depth : ℕ) (path : Bytes) (query : List Op) (f : Forest)
        → height f ≤ depth
        → Below s.world path f
        → each_child p (visit depth path) (names f) query s
          ≡ (ok (some (query ++ post_order path f)), s)
    unfolding each_child names post_order height Below
    each_child-post_order depth path query leaf le b = rw (append-nil query)
    each_child-post_order zero path query (child name below more) le b = absurd (ground arith)
    each_child-post_order (suc depth) path query (child name below more) le (listed, b, c) =
        let first =
          query_step depth ignore_no_entry (child_path path name) query below listed (
            each_child-post_order depth (child_path path name) query below (omega (arith, le)) b) in
        let rest =
          each_child-post_order (suc depth) path
            (query
              ++ post_order (child_path path name) below
              ++ Op.erase (child_path path name) ∷ [])
            more (omega (arith, le)) c in
        rw (first, rest) (simp append_assoc)

    -- If the tree below the path has fewer levels than the recursion may go down, then the query is
    -- extended by the erasures of its entries, and last by that of the path.
    pub make_recursive_erase_query-post_order :
        (depth : ℕ) (behavior : EraseQueryFailures) (path : Bytes) (query : List Op) (f : Forest)
        → height f < depth
        → Lists s.world path f
        → make_recursive_erase_query p depth behavior path query s
          ≡ (ok (some (query ++ post_order path f ++ Op.erase path ∷ [])), s)
    make_recursive_erase_query-post_order zero behavior path query f lt (listed, b) =
        absurd (ground arith)
    make_recursive_erase_query-post_order (suc depth) behavior path query f lt (listed, b) =
        query_step depth behavior path query f listed
          (each_child-post_order depth path query f (omega arith) b)
