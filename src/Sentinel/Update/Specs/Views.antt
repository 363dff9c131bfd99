-- ===== src/Sentinel/Update/Specs/Views.antt =====
-- What the steps at the end of a round read of a database, and that they keep it.
use mathlib.Core.Option
use hysteron.Base.{
  Text, text_eq, text_eq_iff, Map, lookup, insert, values, Bool, false, Option, some, none, ℕ, List,
  [], ◌∷◌, ◌≡◌, refl, sym, ap, ◌∙◌, arith, if◌then◌else◌, map, filter, not, ◌&&◌, sort_texts,
}
use hysteron.Cluster.Enums.{FollowType, internal, external, Role}
use hysteron.Cluster.Settings.{FollowConfig}
use hysteron.Cluster.Entities.{Db}
use hysteron.Cluster.Document.{ClusterData}
use hysteron.Sentinel.State.{Result, ok, err, unknown_db, invalid_db_role}
use hysteron.Sentinel.Selection.{DbType, db_type, classify}
use hysteron.Sentinel.Update.Specs.{
  is_following, is_follower, followers_of, next_generation, bump_generations,
}

-- Every database of a map seen through a function.
abbrev pub view : {A B : Type 0} → (A → B) → Map A → Map B
view f m = map (λ e. (e.0, f e.1)) m

pub lookup-view :
    {A B : Type 0} (f : A → B) (k : Text) (m : Map A)
    → lookup k (view f m) ≡ Option.map f (lookup k m)
unfolding lookup
lookup-view f k [] = refl
lookup-view f k ((j, v) ∷ m) = ground (arith, lookup-view f k m)

-- Putting another value of the same sight in the place of one.
pub view-insert :
    {A B : Type 0} (f : A → B) (k : Text) (v v' : A) (m : Map A)
    → lookup k m ≡ some v
    → f v' ≡ f v
    → view f (insert k v' m) ≡ view f m
unfolding lookup insert
view-insert f k v v' [] h e = cc
view-insert f k v v' ((j, w) ∷ m) h e = ground (arith, text_eq_iff j k, view-insert f k v v' m)

pub insert-lookup :
    {A : Type 0} (k : Text) (v : A) (m : Map A) → lookup k m ≡ some v → insert k v m ≡ m
unfolding lookup insert
insert-lookup k v [] h = cc
insert-lookup k v ((j, w) ∷ m) h = ground (arith, text_eq_iff j k, insert-lookup k v m)

pub view-bump_generations :
    {B : Type 0} (f : Db → B)
    → ((db : Db) (g : ℕ) → f (record db { generation = g }) ≡ f db)
    → (prev dbs : Map Db) → view f (bump_generations prev dbs) ≡ view f dbs
unfolding bump_generations
view-bump_generations f same prev [] = refl
view-bump_generations f same prev ((uid, db) ∷ dbs) =
    rw (same db (next_generation (lookup uid prev) db), view-bump_generations f same prev dbs) refl

-- Whom a database follows, apart from the settings of an external source.
unfoldable pub link : Option FollowConfig → Option (FollowType × Text)
link none = none
link (some fc) = some (fc.follow_type, fc.db_uid)

abbrev pub Place : Type 0
Place = Text × Role × Option (FollowType × Text)

unfoldable pub place : Db → Place
place db = (db.uid, db.spec.role, link db.spec.follow_config)

-- The type that a place stands for.
classify_place : Role → Option (FollowType × Text) → Option DbType
classify_place role none = classify role none
classify_place role (some (t, uid)) = classify role (
    some (record {
      standby_settings = none;
      archive_recovery_settings = none;
      follow_type = t;
      db_uid = uid;
    }))

classify-place :
    (role : Role) (fc : Option FollowConfig) → classify role fc ≡ classify_place role (link fc)
unfolding classify_place classify link
classify-place Role.master none = refl
classify-place Role.master (some fc) = refl
classify-place Role.standby none = refl
classify-place Role.standby (some fc) = refl
classify-place Role.undefined none = refl
classify-place Role.undefined (some fc) = refl

type_at : Text → Option Place → Result DbType
type_at uid none = err (unknown_db uid)
type_at uid (some (own, role, l)) = elim (classify_place role l) [
  | none ↦ err (invalid_db_role uid)
  | some t ↦ ok t
]

type_of : Text → Option Db → Result DbType
type_of uid none = err (unknown_db uid)
type_of uid (some db) = elim (classify db.spec.role db.spec.follow_config) [
  | none ↦ err (invalid_db_role uid)
  | some t ↦ ok t
]

type_of-place : (uid : Text) (o : Option Db) → type_of uid o ≡ type_at uid (Option.map place o)
unfolding type_of type_at place
type_of-place uid none = refl
type_of-place uid (some db) = rw (classify-place db.spec.role db.spec.follow_config, type_of) refl

db_type-type_of : (cd : ClusterData) (uid : Text) → db_type cd uid ≡ type_of uid (lookup uid cd.dbs)
unfolding db_type type_of
db_type-type_of cd uid = ground arith

-- The type of a database depends on the record under its uid only.
pub db_type-lookup :
    (a b : ClusterData) (uid : Text)
    → lookup uid a.dbs ≡ lookup uid b.dbs
    → db_type a uid ≡ db_type b uid
db_type-lookup a b uid e = db_type-type_of a uid ∙ ap (type_of uid) e ∙ sym (db_type-type_of b uid)

db_type-place :
    (cd : ClusterData) (uid : Text) → db_type cd uid ≡ type_at uid (lookup uid (view place cd.dbs))
db_type-place cd uid =
    db_type-type_of cd uid
    ∙ type_of-place uid (lookup uid cd.dbs)
    ∙ ap (type_at uid) (sym (lookup-view place uid cd.dbs))

-- The type of a database depends on the places only.
pub db_type-view :
    (a b : ClusterData) (uid : Text)
    → view place a.dbs ≡ view place b.dbs
    → db_type a uid ≡ db_type b uid
db_type-view a b uid e =
    db_type-place a uid ∙ ap (λ v. type_at uid (lookup uid v)) e ∙ sym (db_type-place b uid)

follows_at : Text → Option (FollowType × Text) → Bool
follows_at wanted none = false
follows_at wanted (some (internal, followed)) = text_eq followed wanted
follows_at wanted (some (external, followed)) = false

is_following-link :
    (wanted : Text) (fc : Option FollowConfig)
    → is_following wanted fc ≡ follows_at wanted (link fc)
unfolding is_following follows_at link
is_following-link wanted none = refl
is_following-link wanted (some fc) = by_type fc.follow_type fc.db_uid
  where
    by_type :
        (t : FollowType) (uid : Text)
        → elim t [ external ↦ false | internal ↦ text_eq uid wanted ]
          ≡ follows_at wanted (some (t, uid))
    by_type internal uid = refl
    by_type external uid = refl

is_followed_by : Text → Text → Place → Bool
is_followed_by master_uid wanted p = not (text_eq master_uid p.0) && follows_at wanted p.2

followers_at : Text → Text → Map Place → List Text
followers_at m w [] = []
followers_at m w ((k, p) ∷ v) =
    if is_followed_by m w p then p.0 ∷ followers_at m w v else followers_at m w v

is_follower-place : (m w : Text) (db : Db) → is_follower m w db ≡ is_followed_by m w (place db)
unfolding is_follower is_followed_by place
is_follower-place m w db = rw (is_following-link w db.spec.follow_config) refl

followers-place :
    (m w : Text) (dbs : Map Db)
    → map (λ (db : Db). db.uid) (filter (is_follower m w) (values dbs))
      ≡ followers_at m w (view place dbs)
unfolding filter followers_at place
followers-place m w [] = refl
followers-place m w ((k, db) ∷ dbs) =
    ground (arith, is_follower-place m w db, followers-place m w dbs)

-- So do the followers.
pub followers_of-view :
    (m w : Text) (a b : Map Db)
    → view place a ≡ view place b
    → followers_of m w (values a) ≡ followers_of m w (values b)
unfolding followers_of
followers_of-view m w a b e =
    ap sort_texts (followers-place m w a ∙ ap (followers_at m w) e ∙ sym (followers-place m w b))
