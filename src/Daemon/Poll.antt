-- ===== src/Daemon/Poll.antt =====
-- The table of polled descriptors: register_poll, unregister_poll and poll_ctrl_handler of
-- native/src/core/daemon.cpp.
use kitsune_ufork.Common.{
  ℕ, suc, ◌+◌, ◌-◌, ◌≡◌, refl, Bool, true, false, ◌&&◌, Option, none, some, List, [], ◌∷◌, ◌++◌,
  arith, length, length-append, ◌==◌, ==_iff, if◌then◌else◌,
}
use kitsune_ufork.OrderedMap.{int_key, Map, find, put, erase, is_some}
use kitsune_ufork.OrderedMap.Laws.{find-put, find-erase}

-- poll_map, with callbacks as numbers; the descriptors of poll_fds, with `none` for -1; and the
-- descriptors closed so far.
pub record Table : Type 0 where
  pub poll_map : Map ℕ ℕ
  pub poll_fds : List (Option ℕ)
  pub closed : List ℕ

-- poll_map->try_emplace
unfoldable pub try_emplace : ℕ → ℕ → Map ℕ ℕ → Map ℕ ℕ
try_emplace fd callback m = if is_some (find fd m) then m else put fd callback m

unfoldable pub register_poll : ℕ → ℕ → Table → Table
register_poll fd callback t = record t {
  poll_map = try_emplace fd callback t.poll_map;
  poll_fds = t.poll_fds ++ (some fd ∷ []);
}

-- The loop of unregister_poll: the first entry becomes -1. Whether there was one.
unfoldable pub invalidate : ℕ → List (Option ℕ) → List (Option ℕ) × Bool
invalidate fd [] = ([], false)
invalidate fd (none ∷ fds) = let (fds', found) = invalidate fd fds in (none ∷ fds', found)
invalidate fd (some g ∷ fds) =
    let (fds', found) = invalidate fd fds in
    if g == fd then (none ∷ fds, true) else (some g ∷ fds', found)

unfoldable pub unregister_poll : ℕ → Bool → Table → Table
unregister_poll fd auto_close t =
    let (fds, found) = invalidate fd t.poll_fds in
    record t {
      poll_map = erase fd t.poll_map;
      poll_fds = fds;
      closed = if found && auto_close then fd ∷ t.closed else t.closed;
    }

-- What another thread writes to poll_ctrl, and what the main thread does with it. A descriptor
-- below zero to unregister changes nothing.
pub data Control : Type 0 where
  poll_ctrl_new : ℕ → ℕ → Control
  poll_ctrl_rm : Option ℕ → Bool → Control

unfoldable pub poll_ctrl_handler : Control → Table → Table
poll_ctrl_handler (poll_ctrl_new fd callback) t = register_poll fd callback t
poll_ctrl_handler (poll_ctrl_rm none auto_close) t = t
poll_ctrl_handler (poll_ctrl_rm (some fd) auto_close) t = unregister_poll fd auto_close t

unfoldable pub handle_all : List Control → Table → Table
handle_all [] t = t
handle_all (c ∷ cs) t = handle_all cs (poll_ctrl_handler c t)

abbrev pub count : ℕ → List (Option ℕ) → ℕ
count fd [] = 0
count fd (none ∷ fds) = count fd fds
count fd (some g ∷ fds) = if g == fd then suc (count fd fds) else count fd fds

count-append :
    (fd g : ℕ) (fds : List (Option ℕ)) → count fd (fds ++ (some g ∷ [])) ≡ count fd (some g ∷ fds)
count-append fd g [] = refl
count-append fd g (none ∷ fds) = ground (arith, count-append fd g fds)
count-append fd g (some h ∷ fds) = ground (arith, count-append fd g fds)

count-invalidate :
    (fd g : ℕ) (fds : List (Option ℕ))
    → count fd (invalidate g fds).0 ≡ (if g == fd then count fd fds - 1 else count fd fds)
unfolding invalidate
count-invalidate fd g [] = ground arith
count-invalidate fd g (none ∷ fds) = ground (arith, count-invalidate fd g fds)
count-invalidate fd g (some h ∷ fds) = ground (arith, count-invalidate fd g fds)

length-invalidate : (g : ℕ) (fds : List (Option ℕ)) → length (invalidate g fds).0 ≡ length fds
unfolding invalidate
length-invalidate g [] = refl
length-invalidate g (none ∷ fds) = ground (arith, length-invalidate g fds)
length-invalidate g (some h ∷ fds) = ground (arith, length-invalidate g fds)

-- Exactly the descriptors with a callback are polled, each once.
abbrev pub IsTable : Table → Type 0
IsTable t = (fd : ℕ) → count fd t.poll_fds ≡ (if is_some (find fd t.poll_map) then 1 else 0)

-- Each message registers a descriptor that is not registered then, or removes one.
abbrev pub Fresh : List Control → Table → Type 0
Fresh [] t = Unit
Fresh (poll_ctrl_new fd callback ∷ cs) t =
    (is_some (find fd t.poll_map) ≡ false) × Fresh cs (register_poll fd callback t)
Fresh (poll_ctrl_rm fd auto_close ∷ cs) t =
    Fresh cs (poll_ctrl_handler (poll_ctrl_rm fd auto_close) t)

register_poll-IsTable :
    (g callback : ℕ) (t : Table)
    → is_some (find g t.poll_map) ≡ false
    → IsTable t
    → IsTable (register_poll g callback t)
unfolding register_poll try_emplace
register_poll-IsTable g callback t h w fd = ground (
  arith,
  h,
  w fd,
  w g,
  count-append fd g t.poll_fds,
  find-put g fd callback t.poll_map,
  ==_iff g fd,
)

unregister_poll-IsTable :
    (g : ℕ) (auto_close : Bool) (t : Table) → IsTable t → IsTable (unregister_poll g auto_close t)
unfolding unregister_poll
unregister_poll-IsTable g auto_close t w fd =
    ground (arith, w fd, count-invalidate fd g t.poll_fds, find-erase g fd t.poll_map)

-- After any messages whose registrations are of descriptors not registered at that time, exactly
-- the descriptors with a callback are polled, each once.
pub handle_all-IsTable :
    (cs : List Control) (t : Table) → Fresh cs t → IsTable t → IsTable (handle_all cs t)
unfolding handle_all poll_ctrl_handler
handle_all-IsTable [] t f w = w
handle_all-IsTable (poll_ctrl_new fd callback ∷ cs) t (h, f) w =
    handle_all-IsTable cs (register_poll fd callback t) f (register_poll-IsTable fd callback t h w)
handle_all-IsTable (poll_ctrl_rm none auto_close ∷ cs) t f w = handle_all-IsTable cs t f w
handle_all-IsTable (poll_ctrl_rm (some fd) auto_close ∷ cs) t f w =
    handle_all-IsTable cs (unregister_poll fd auto_close t) f
      (unregister_poll-IsTable fd auto_close t w)

abbrev pub registrations : List Control → ℕ
registrations [] = 0
registrations (poll_ctrl_new fd callback ∷ cs) = suc (registrations cs)
registrations (poll_ctrl_rm fd auto_close ∷ cs) = registrations cs

-- No message makes the list of descriptors shorter: it has an entry for each registration that
-- there ever was.
pub handle_all_grows :
    (cs : List Control) (t : Table)
    → length (handle_all cs t).poll_fds ≡ registrations cs + length t.poll_fds
unfolding handle_all poll_ctrl_handler register_poll unregister_poll
handle_all_grows [] t = omega arith
handle_all_grows (poll_ctrl_new fd callback ∷ cs) t = omega (
  arith,
  handle_all_grows cs (register_poll fd callback t),
  length-append t.poll_fds (some fd ∷ []),
)
handle_all_grows (poll_ctrl_rm none auto_close ∷ cs) t = handle_all_grows cs t
handle_all_grows (poll_ctrl_rm (some fd) auto_close ∷ cs) t =
    omega (
      arith,
      handle_all_grows cs (unregister_poll fd auto_close t),
      length-invalidate fd t.poll_fds,
    )
