-- ===== src/TunnelManager/Revocation.antt =====
-- What a deletion takes out of authorized_keys: the lines with the tunnel's identifier in them.
use boringproxy.Prelude.{
  ◌≡◌, refl, sym, ap, ◌∙◌, ◌≢◌, String, false, not, ◌&&◌, some, List, [], ◌∷◌, All, arith, eq_iff,
  test_of_ne,
}
use boringproxy.Prelude.Int.{ℤ}
use boringproxy.Prelude.Text.{split, join, contains, Lacks}
use boringproxy.Prelude.Text.Lines.{lists, split-Lacks, split-join}
use boringproxy.Prelude.Result.{ok}
use boringproxy.Outside.{Outside}
use boringproxy.TunnelManager.Keys.{
  tunnel_id, other_lines, without_lines, remove_from_authorized_keys,
}
use boringproxy.TunnelManager.KeyFile.{
  FileWorks, Free, contains-nil, other_lines-Free, remove_from_authorized_keys_lem,
}

other_lines-Lacks :
    (id : String) (ls : List String) → All (Lacks b'\n') ls → All (Lacks b'\n') (other_lines id ls)
unfolding other_lines
other_lines-Lacks id [] h = tt
other_lines-Lacks id (l ∷ ls) (h, hs) = ground (arith, other_lines-Lacks id ls hs)

lists-other_lines :
    (id l : String) (ls : List String)
    → lists l (other_lines id ls) ≡ (not (contains l id) && lists l ls)
unfolding other_lines lists
lists-other_lines id l [] = ground arith
lists-other_lines id l (k ∷ ls) = ground (arith, lists-other_lines id l ls, eq_iff k l)

-- What `join` wrote is read back, but for the empty list, which is read as one empty line.
data Read (ls : List String) : List String → Type 0 where
  lines : Read ls ls
  blank : ls ≡ [] → Read ls ("" ∷ [])

split-join-Read : (ls : List String) → All (Lacks b'\n') ls → Read ls (split b'\n' (join "\n" ls))
split-join-Read [] h = unfold split join in blank refl
split-join-Read (l ∷ ls) h = rw (split-join l ls h) lines

pub record IsRevoked (id old new : String) : Type 0 where
  pub gone : Free id (split b'\n' new)
  pub kept :
      (l : String)
      → l ≢ ""
      → lists l (split b'\n' new) ≡ (not (contains l id) && lists l (split b'\n' old))

Read-IsRevoked :
    (id old new : String) (ps : List String)
    → contains "" id ≡ false
    → Read (other_lines id (split b'\n' old)) ps
    → split b'\n' new ≡ ps
    → IsRevoked id old new
unfolding lists
Read-IsRevoked id old new ps empty lines e = record {
  gone = rw e (other_lines-Free id (split b'\n' old));
  kept = λ l n. rw e (lists-other_lines id l (split b'\n' old));
}
Read-IsRevoked id old new ps empty (blank q) e = record {
  gone = rw e (empty, tt);
  kept = λ l n.
      rw (e, test_of_ne "" l (λ s. n (sym s)))
        (ap (lists l) (sym q) ∙ lists-other_lines id l (split b'\n' old));
}

-- A deletion whose file calls work leaves in authorized_keys no line that names the tunnel, and of
-- the other lines that are not empty exactly those that were there.
pub remove_from_authorized_keys-IsRevoked :
    (o : Outside) (path domain : String) (port : ℤ) (old : String)
    → FileWorks o
    → (new : String) × (remove_from_authorized_keys o path domain port (some old)
        ≡ (some new, ok tt))
      × IsRevoked (tunnel_id domain port) old new
remove_from_authorized_keys-IsRevoked o path domain port old f = (
  without_lines (tunnel_id domain port) old,
  remove_from_authorized_keys_lem o path domain port old f,
  Read-IsRevoked _ old _ _ (contains-nil domain port)
      (split-join-Read _ (other_lines-Lacks _ _ (split-Lacks old))) (unfold without_lines in refl),
)
