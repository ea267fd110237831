-- ===== src/Tools/CleanUp/UnionFind.antt =====
-- The class `UnionFind` of tools/cleanup_mouse_positives.py and the groups of near duplicates that
-- `main` makes with it. The loops of `find` run on rounds.
use mousinator.Prelude.{
  ◌++◌, none, [], ◌==◌, if◌then◌else◌, if◌then◌else◌, some, ◌∷◌, length, Option, String, List, ℕ,
  zero, suc,
}

-- `parent`, a dictionary over all the items.
abbrev pub Parents : Type 0
Parents = String → String

-- `UnionFind(items)`
abbrev pub union_find : Parents
union_find item = item

-- `self.parent[item] = value`
abbrev pub put : String → String → Parents → Parents
put item value p x = if x == item then value else p x

-- The first loop of `find`; nothing if the rounds run out.
unfoldable pub root_of : ℕ → Parents → String → Option String
root_of zero p x = if p x == x then some x else none
root_of (suc k) p x = let above = root_of k p (p x) in if p x == x then some x else above

-- The second loop, which makes the root the parent of every item on the way.
unfoldable pub compress : ℕ → Parents → String → String → Option Parents
compress zero p item root = if p item == item then some p else none
compress (suc k) p item root =
    let rest = compress k (put item root p) (p item) root in if p item == item then some p else rest

abbrev pub with_parents : String → Option Parents → Option (String × Parents)
with_parents root none = none
with_parents root (some p) = some (root, p)

abbrev pub compressed : ℕ → Parents → String → Option String → Option (String × Parents)
compressed k p item none = none
compressed k p item (some root) = with_parents root (compress k p item root)

-- `find`: the root and the dictionary after it.
unfoldable pub find : ℕ → Parents → String → Option (String × Parents)
unfolding root_of compress
find k p item = compressed k p item (root_of k p item)

abbrev pub linked : String → Option (String × Parents) → Option Parents
linked ra none = none
linked ra (some (rb, p)) = some (if ra == rb then p else put rb ra p)

abbrev pub union_after : ℕ → String → Option (String × Parents) → Option Parents
union_after k b none = none
union_after k b (some (ra, p)) = linked ra (find k p b)

unfoldable pub union : ℕ → String → String → Parents → Option Parents
unfolding find
union k a b p = union_after k b (find k p a)

-- The unions of the pairs that are near duplicates, in order.
abbrev pub unions_after : (Parents → Option Parents) → Option Parents → Option Parents
unions_after f none = none
unions_after f (some p) = f p

unfoldable pub union_all : ℕ → List (String × String) → Parents → Option Parents
unfolding union
union_all k [] p = some p
union_all k (ab ∷ pairs) p = unions_after (union_all k pairs) (union k ab.0 ab.1 p)

-- `groups[root].append(name)`
unfoldable pub add_to : String → String → List (String × List String) → List (String × List String)
add_to root name [] = (root, name ∷ []) ∷ []
add_to root name (g ∷ groups) =
    let rest = add_to root name groups in
    if g.0 == root then (g.0, g.1 ++ name ∷ []) ∷ groups else g ∷ rest

-- The groups of the names by what `find` returns.
abbrev pub group_after :
    (Parents → List (String × List String) → Option (List (String × List String)))
    → String
    → List (String × List String)
    → Option (String × Parents)
    → Option (List (String × List String))
group_after f name groups none = none
group_after f name groups (some (root, p)) = f p (add_to root name groups)

unfoldable pub group_from :
    ℕ → List String → Parents → List (String × List String) → Option (List (String × List String))
unfolding find add_to
group_from k [] p groups = some groups
group_from k (name ∷ names) p groups = group_after (group_from k names) name groups (find k p name)

abbrev pub grouped : ℕ → List String → Option Parents → Option (List (String × List String))
grouped k names none = none
grouped k names (some p) = group_from k names p []

-- The groups of near duplicates, from the names and the near pairs. A chain of parents is at most as
-- long as the number of unions, so that many rounds are given.
unfoldable pub group_near :
    List String → List (String × String) → Option (List (String × List String))
unfolding union_all group_from
group_near names pairs = let k = length pairs in grouped k names (union_all k pairs union_find)
