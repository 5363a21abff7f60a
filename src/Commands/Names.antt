-- ===== src/Commands/Names.antt =====
-- The names of the commands that `out_buffer` of src/server.cpp compares with.
use custom_redis.Base.{[], ◌∷◌}
use custom_redis.Wire.{Bytes}

-- "get"
abbrev pub name_get : Bytes
name_get = 103 ∷ 101 ∷ 116 ∷ []

-- "set"
abbrev pub name_set : Bytes
name_set = 115 ∷ 101 ∷ 116 ∷ []

-- "del"
abbrev pub name_del : Bytes
name_del = 100 ∷ 101 ∷ 108 ∷ []

-- "keys"
abbrev pub name_keys : Bytes
name_keys = 107 ∷ 101 ∷ 121 ∷ 115 ∷ []

-- "hset"
abbrev pub name_hset : Bytes
name_hset = 104 ∷ 115 ∷ 101 ∷ 116 ∷ []

-- "hget"
abbrev pub name_hget : Bytes
name_hget = 104 ∷ 103 ∷ 101 ∷ 116 ∷ []

-- "hgetall"
abbrev pub name_hgetall : Bytes
name_hgetall = 104 ∷ 103 ∷ 101 ∷ 116 ∷ 97 ∷ 108 ∷ 108 ∷ []

-- "hdel"
abbrev pub name_hdel : Bytes
name_hdel = 104 ∷ 100 ∷ 101 ∷ 108 ∷ []

-- "expire"
abbrev pub name_expire : Bytes
name_expire = 101 ∷ 120 ∷ 112 ∷ 105 ∷ 114 ∷ 101 ∷ []

-- "ttl"
abbrev pub name_ttl : Bytes
name_ttl = 116 ∷ 116 ∷ 108 ∷ []

-- "persist"
abbrev pub name_persist : Bytes
name_persist = 112 ∷ 101 ∷ 114 ∷ 115 ∷ 105 ∷ 115 ∷ 116 ∷ []

-- "zadd"
abbrev pub name_zadd : Bytes
name_zadd = 122 ∷ 97 ∷ 100 ∷ 100 ∷ []

-- "zscore"
abbrev pub name_zscore : Bytes
name_zscore = 122 ∷ 115 ∷ 99 ∷ 111 ∷ 114 ∷ 101 ∷ []

-- "zrem"
abbrev pub name_zrem : Bytes
name_zrem = 122 ∷ 114 ∷ 101 ∷ 109 ∷ []

-- "zquery"
abbrev pub name_zquery : Bytes
name_zquery = 122 ∷ 113 ∷ 117 ∷ 101 ∷ 114 ∷ 121 ∷ []

-- "lpush"
abbrev pub name_lpush : Bytes
name_lpush = 108 ∷ 112 ∷ 117 ∷ 115 ∷ 104 ∷ []

-- "rpush"
abbrev pub name_rpush : Bytes
name_rpush = 114 ∷ 112 ∷ 117 ∷ 115 ∷ 104 ∷ []

-- "lpop"
abbrev pub name_lpop : Bytes
name_lpop = 108 ∷ 112 ∷ 111 ∷ 112 ∷ []

-- "rpop"
abbrev pub name_rpop : Bytes
name_rpop = 114 ∷ 112 ∷ 111 ∷ 112 ∷ []

-- "lrange"
abbrev pub name_lrange : Bytes
name_lrange = 108 ∷ 114 ∷ 97 ∷ 110 ∷ 103 ∷ 101 ∷ []

-- "sadd"
abbrev pub name_sadd : Bytes
name_sadd = 115 ∷ 97 ∷ 100 ∷ 100 ∷ []

-- "srem"
abbrev pub name_srem : Bytes
name_srem = 115 ∷ 114 ∷ 101 ∷ 109 ∷ []

-- "smembers"
abbrev pub name_smembers : Bytes
name_smembers = 115 ∷ 109 ∷ 101 ∷ 109 ∷ 98 ∷ 101 ∷ 114 ∷ 115 ∷ []

-- "scard"
abbrev pub name_scard : Bytes
name_scard = 115 ∷ 99 ∷ 97 ∷ 114 ∷ 100 ∷ []

-- "setbit"
abbrev pub name_setbit : Bytes
name_setbit = 115 ∷ 101 ∷ 116 ∷ 98 ∷ 105 ∷ 116 ∷ []

-- "getbit"
abbrev pub name_getbit : Bytes
name_getbit = 103 ∷ 101 ∷ 116 ∷ 98 ∷ 105 ∷ 116 ∷ []

-- "bitcount"
abbrev pub name_bitcount : Bytes
name_bitcount = 98 ∷ 105 ∷ 116 ∷ 99 ∷ 111 ∷ 117 ∷ 110 ∷ 116 ∷ []

-- "pfadd"
abbrev pub name_pfadd : Bytes
name_pfadd = 112 ∷ 102 ∷ 97 ∷ 100 ∷ 100 ∷ []

-- "pfcount"
abbrev pub name_pfcount : Bytes
name_pfcount = 112 ∷ 102 ∷ 99 ∷ 111 ∷ 117 ∷ 110 ∷ 116 ∷ []

-- "pfmerge"
abbrev pub name_pfmerge : Bytes
name_pfmerge = 112 ∷ 102 ∷ 109 ∷ 101 ∷ 114 ∷ 103 ∷ 101 ∷ []

-- "multi"
abbrev pub name_multi : Bytes
name_multi = 109 ∷ 117 ∷ 108 ∷ 116 ∷ 105 ∷ []

-- "exec"
abbrev pub name_exec : Bytes
name_exec = 101 ∷ 120 ∷ 101 ∷ 99 ∷ []

-- "watch"
abbrev pub name_watch : Bytes
name_watch = 119 ∷ 97 ∷ 116 ∷ 99 ∷ 104 ∷ []

-- "discard"
abbrev pub name_discard : Bytes
name_discard = 100 ∷ 105 ∷ 115 ∷ 99 ∷ 97 ∷ 114 ∷ 100 ∷ []

-- "unknown command"
abbrev pub unknown_mes : Bytes
unknown_mes =
    117 ∷ 110 ∷ 107 ∷ 110 ∷ 111 ∷ 119 ∷ 110 ∷ 32 ∷ 99 ∷ 111 ∷ 109 ∷ 109 ∷ 97 ∷ 110 ∷ 100 ∷ []
