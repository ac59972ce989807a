-- ===== src/Storage/Records/Serving.antt =====
-- The requests that change the records, over their index by meta value (node/storage/records.go).
use sum.Prelude.{ℕ, ◌≡◌, ap, Option, none, some, List}
use sum.Proto.{Record}
use sum.Storage.Env.{Env}
use sum.Storage.Driver.{record_driver}
use sum.Storage.Index
use sum.Storage.Records
use sum.Storage.Records.{Records}
use sum.Storage.Records.Completeness.{
  IsIndexed, create-IsIndexed, create_with_id-IsIndexed, update-IsIndexed, delete-IsIndexed,
  delete_many-IsIndexed, create_many-IsIndexed,
}

pub data Request : Type 0 where
  create : Record → Request
  create_with_id : Record → Request
  create_many : List Record → Request
  update : Record → Request
  delete : ℕ → Request
  delete_many : List ℕ → Request

unfoldable pub state_of :
    {env : Env Record} {A : Type 0} → Option (Records env × A) → Option (Records env)
state_of none = none
state_of (some (r, _)) = some r

module _ {env : Env Record} where
  -- the records after a request, or the panic
  unfoldable pub serve : Request → Records env → Option (Records env)
  unfolding state_of
  serve (create rec) r = state_of (Records.create rec r)
  serve (create_with_id rec) r = state_of (Records.create_with_id rec r)
  serve (create_many recs) r = state_of (Records.create_many_with_id recs r)
  serve (update rec) r = state_of (Records.update rec r)
  serve (delete id) r = state_of (Records.delete id r)
  serve (delete_many ids) r = state_of (Records.delete_many ids r)

  -- the index does not refuse an update
  abbrev pub IsAccepted : Request → Records env → Type 0
  IsAccepted (update rec) r = (Index.update record_driver rec r.base).1 ≡ none
  IsAccepted _ r = Unit {0}

  served :
      {A : Type 0} (o : Option (Records env × A))
      → (out : Records env × A) × (o ≡ some out) × IsIndexed out.0
      → (r' : Records env) × (state_of o ≡ some r') × IsIndexed r'
  unfolding state_of
  served o (out, e, h) = (out.0, ap state_of e, h)

  -- Where every stored record is in the bucket of each of its meta values, it is so after any
  -- creation, update that the index accepts, deletion or batch, whatever else fails, and the
  -- request does not panic.
  pub serve-IsIndexed :
      (q : Request) (r : Records env)
      → IsAccepted q r
      → IsIndexed r
      → (r' : Records env) × (serve q r ≡ some r') × IsIndexed r'
  unfolding serve
  serve-IsIndexed (create rec) r a h = served _ (create-IsIndexed rec r h)
  serve-IsIndexed (create_with_id rec) r a h = served _ (create_with_id-IsIndexed rec r h)
  serve-IsIndexed (create_many recs) r a h = served _ (create_many-IsIndexed recs r h)
  serve-IsIndexed (update rec) r a h = served _ (update-IsIndexed rec r a h)
  serve-IsIndexed (delete id) r a h = served _ (delete-IsIndexed id r h)
  serve-IsIndexed (delete_many ids) r a h = served _ (delete_many-IsIndexed ids r h)
