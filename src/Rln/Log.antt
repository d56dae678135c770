-- ===== src/Rln/Log.antt =====
-- waku/waku_rln_relay/rln_relay.nim: the log of nullifiers. An ordered table is an association list
-- in the order of insertion. Behind a test that a key is there no KeyError occurs.
use nwaku.Base.{
  ℕ, zero, suc, ==_iff, ◌+◌, ◌≤◌, ◌≡◌, refl, arith, Bool, true, false, ltb, ◌==◌, ◌||◌,
  if◌then◌else◌, Option, none, some, List, [], ◌∷◌, ◌++◌, length, take, drop,
}

abbrev pub Epoch : Type 0
Epoch = ℕ

abbrev pub Nullifier : Type 0
Nullifier = ℕ

abbrev pub MerkleNode : Type 0
MerkleNode = ℕ

pub record ProofMetadata : Type 0 where
  pub nullifier : Nullifier
  pub share_x : MerkleNode
  pub share_y : MerkleNode
  pub external_nullifier : Nullifier

abbrev pub Records : Type 0
Records = List (Nullifier × ProofMetadata)

abbrev pub NullifierLog : Type 0
NullifierLog = List (Epoch × Records)

unfoldable pub has_nullifier : Nullifier → Records → Bool
has_nullifier n [] = false
has_nullifier n ((k, d) ∷ r) = (k == n) || has_nullifier n r

unfoldable pub find_epoch : Epoch → NullifierLog → Option Records
find_epoch e [] = none
find_epoch e ((k, r) ∷ l) = if k == e then some r else find_epoch e l

abbrev pub recorded : Nullifier → Option Records → Bool
recorded n none = false
recorded n (some r) = has_nullifier n r

unfoldable pub has_duplicate : NullifierLog → Epoch → ProofMetadata → Bool
unfolding find_epoch has_nullifier
has_duplicate l e d = recorded d.nullifier (find_epoch e l)

-- `hasKeyOrPut` of the records of an epoch.
unfoldable pub put_record : ProofMetadata → Records → Records
unfolding has_nullifier
put_record d r = if has_nullifier d.nullifier r then r else r ++ (d.nullifier, d) ∷ []

unfoldable pub update_log : NullifierLog → Epoch → ProofMetadata → NullifierLog
unfolding put_record
update_log [] e d = (e, (d.nullifier, d) ∷ []) ∷ []
update_log ((k, r) ∷ l) e d = if k == e then (k, put_record d r) ∷ l else (k, r) ∷ update_log l e d

abbrev pub keys : NullifierLog → List Epoch
keys [] = []
keys ((k, r) ∷ l) = k ∷ keys l

unfoldable pub del_epoch : Epoch → NullifierLog → NullifierLog
del_epoch e [] = []
del_epoch e ((k, r) ∷ l) = if k == e then l else (k, r) ∷ del_epoch e l

unfoldable pub del_epochs : List Epoch → NullifierLog → NullifierLog
unfolding del_epoch
del_epochs [] l = l
del_epochs (e ∷ es) l = del_epochs es (del_epoch e l)

unfoldable pub clear_nullifier_log : ℕ → NullifierLog → NullifierLog
unfolding del_epochs
clear_nullifier_log gap l = if ltb (length l) gap then l else del_epochs (take gap (keys l)) l

has_nullifier-append :
    (n : Nullifier) (r : Records) (d : ProofMetadata)
    → has_nullifier n (r ++ (d.nullifier, d) ∷ []) ≡ (has_nullifier n r || (d.nullifier == n))
unfolding has_nullifier
has_nullifier-append n [] d = ground arith
has_nullifier-append n ((k, e) ∷ r) d = ground (arith, has_nullifier-append n r d)

has_nullifier-put_record :
    (d : ProofMetadata) (r : Records) → has_nullifier d.nullifier (put_record d r) ≡ true
unfolding put_record
has_nullifier-put_record d r = ground (arith, has_nullifier-append d.nullifier r d)

put_record_keeps :
    (n : Nullifier) (d : ProofMetadata) (r : Records)
    → has_nullifier n r ≡ true
    → has_nullifier n (put_record d r) ≡ true
unfolding put_record
put_record_keeps n d r h = ground (arith, has_nullifier-append n r d)

-- What is logged is a duplicate from then on.
pub has_duplicate-update_log :
    (l : NullifierLog) (e : Epoch) (d d' : ProofMetadata)
    → d.nullifier ≡ d'.nullifier
    → has_duplicate (update_log l e d) e d' ≡ true
unfolding has_duplicate update_log
has_duplicate-update_log [] e d d' h = ground arith
has_duplicate-update_log ((k, r) ∷ l) e d d' h =
    ground (arith, has_duplicate-update_log l e d d' h, has_nullifier-put_record d r)

pub update_log_keeps :
    (l : NullifierLog) (e f : Epoch) (d d' : ProofMetadata)
    → has_duplicate l e d ≡ true
    → has_duplicate (update_log l f d') e d ≡ true
unfolding has_duplicate update_log
update_log_keeps [] e f d d' h = cc
update_log_keeps ((k, r) ∷ l) e f d d' h =
    ground (arith, update_log_keeps l e f d d', put_record_keeps d.nullifier d' r)

pub length-update_log_le :
    (l : NullifierLog) (e : Epoch) (d : ProofMetadata) → length (update_log l e d) ≤ length l + 1
unfolding update_log
length-update_log_le [] e d = omega arith
length-update_log_le ((k, r) ∷ l) e d = ground (arith, length-update_log_le l e d)

del_epochs_first : (gap : ℕ) (l : NullifierLog) → del_epochs (take gap (keys l)) l ≡ drop gap l
unfolding del_epochs del_epoch
del_epochs_first zero l = refl
del_epochs_first (suc gap) [] = refl
del_epochs_first (suc gap) ((k, r) ∷ l) = rw ((==_iff k k).1 refl) (del_epochs_first gap l)

-- Each of the first epochs stands at the front when its turn comes.
pub clear_nullifier_log-drop :
    (gap : ℕ) (l : NullifierLog)
    → clear_nullifier_log gap l ≡ (if ltb (length l) gap then l else drop gap l)
unfolding clear_nullifier_log
clear_nullifier_log-drop gap l = rw (del_epochs_first gap l)
