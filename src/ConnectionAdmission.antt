-- ===== src/ConnectionAdmission.antt =====
-- `ConnectionAdmission` of server/fruitspy/admission.py: how many TCP connections are open, in all
-- and from each source. `total` is an int that `release` lowers by one; it is a natural number
-- here, and Counts shows that it is above 0 wherever it is lowered.
pub mod Counts
use fruitspy.Prelude.{
  Text, list_eq, nat_eq, ℕ, ◌+◌, ◌-◌, Bool, true, false, ◌||◌, Option, none, some, [], leb, ◌==◌,
  if◌then◌else◌,
}
use fruitspy.Dict.{Dict, get, put, remove}

pub record ConnectionAdmission : Type 0 where
  pub total_limit : ℕ
  pub per_source_limit : ℕ
  pub total : ℕ
  pub sources : Dict Text ℕ

unfoldable pub create : ℕ → ℕ → ConnectionAdmission
create total_limit per_source_limit = record {
  total_limit = total_limit;
  per_source_limit = per_source_limit;
  total = 0;
  sources = [];
}

-- self._sources.get(source, 0)
unfoldable pub count : Text → ConnectionAdmission → ℕ
count source a = elim (get source a.sources) [ none ↦ 0 | some n ↦ n ]

-- acquire(source)
unfoldable pub acquire : Text → ConnectionAdmission → Bool × ConnectionAdmission
acquire source a =
    if leb a.total_limit a.total || leb a.per_source_limit (count source a) then (false, a) else (
      true,
      record a { total = a.total + 1; sources = put source (count source a + 1) a.sources },
    )

-- release(source) with the source's count looked up
unfoldable pub release_counted : Text → Option ℕ → ConnectionAdmission → ConnectionAdmission
release_counted source none a = a
release_counted source (some n) a = record a {
  total = a.total - 1;
  sources = if n == 1 then remove source a.sources else put source (n - 1) a.sources;
}

-- release(source)
unfoldable pub release : Text → ConnectionAdmission → ConnectionAdmission
unfolding release_counted
release source a = release_counted source (get source a.sources) a
