-- ===== src/Builder/Scripts.antt =====
-- The shell scripts of the pods.
use kind_music_streaming.Prelude.{ℕ, zero, suc, ◌+◌, String, ◌<>◌, List, [], ◌∷◌, decimal}
use kind_music_streaming.Prelude.Int.{ℤ, pos, negsuc}
use kind_music_streaming.Exec.{Outcome, ok, panic, ◌>>=?◌}

unfoldable pub concat : List String → String
concat [] = ""
concat (s ∷ parts) = s <> concat parts

unfoldable pub build_replica_setup_script : String → String
build_replica_setup_script master_host = concat (
    "\n" ∷ "#!/bin/bash\n" ∷ "set -e\n" ∷ "echo \"Waiting for local MariaDB to be ready...\"\n"
    ∷ "until mysql -h 127.0.0.1 -P 3306 -uroot -p${MYSQL_ROOT_PASSWORD} -e \"SELECT 1\" > /dev/null 2>&1; do\n"
    ∷ "\tsleep 2\n" ∷ "done\n" ∷ "echo \"Waiting for master to be ready...\"\n" ∷ "until mysql -h "
    ∷ master_host
    ∷ " -P 3306 -uroot -p${MYSQL_ROOT_PASSWORD} -e \"SELECT 1\" > /dev/null 2>&1; do\n"
    ∷ "\tsleep 2\n" ∷ "done\n" ∷ "echo \"Master is ready, ensuring replication user...\"\n"
    ∷ "mysql -h " ∷ master_host
    ∷ " -P 3306 -uroot -p${MYSQL_ROOT_PASSWORD} -e \"CREATE USER IF NOT EXISTS '${REPLICATION_USER}'@'%' IDENTIFIED BY '${REPLICATION_PASSWORD}'; GRANT REPLICATION SLAVE ON *.* TO '${REPLICATION_USER}'@'%'; FLUSH PRIVILEGES;\"\n"
    ∷ "echo \"Configuring replica...\"\n"
    ∷ "mysql -h 127.0.0.1 -P 3306 -uroot -p${MYSQL_ROOT_PASSWORD} -e \"STOP SLAVE; RESET SLAVE ALL; CHANGE MASTER TO MASTER_HOST='"
    ∷ master_host
    ∷ "', MASTER_USER='${REPLICATION_USER}', MASTER_PASSWORD='${REPLICATION_PASSWORD}', MASTER_PORT=3306, MASTER_USE_GTID=slave_pos; START SLAVE;\"\n"
    ∷ "mysql -h 127.0.0.1 -P 3306 -uroot -p${MYSQL_ROOT_PASSWORD} -e \"SHOW SLAVE STATUS\\\\G\" | grep -E \"Slave_IO_Running: Yes|Slave_SQL_Running: Yes\" || true\n"
    ∷ "echo \"Replication setup complete. Sleeping...\"\n" ∷ "sleep infinity\n" ∷ [])

unfoldable pub build_master_config_script : String
build_master_config_script = concat (
    "\n" ∷ "set -e\n" ∷ "cat <<'EOF' > /db-config/server-id.cnf\n" ∷ "[mysqld]\n" ∷ "server-id=1\n"
    ∷ "log_bin=mysql-bin\n" ∷ "binlog_format=ROW\n" ∷ "gtid_strict_mode=ON\n"
    ∷ "log_slave_updates=ON\n" ∷ "EOF\n" ∷ [])

unfoldable pub build_replica_config_script : String
build_replica_config_script = concat (
    "\n" ∷ "set -e\n" ∷ "ordinal=${POD_NAME##*-}\n" ∷ "server_id=$((200 + ordinal))\n"
    ∷ "cat <<EOF > /db-config/server-id.cnf\n" ∷ "[mysqld]\n" ∷ "server-id=${server_id}\n"
    ∷ "log_bin=mysql-bin\n" ∷ "binlog_format=ROW\n" ∷ "gtid_strict_mode=ON\n"
    ∷ "log_slave_updates=ON\n" ∷ "read_only=ON\n" ∷ "skip_slave_start=1\n" ∷ "EOF\n" ∷ [])

-- `strings.Join(members, ",")`
unfoldable pub join : List String → String
join [] = ""
join (s ∷ []) = s
join (s ∷ t ∷ rest) = s <> "," <> join (t ∷ rest)

-- The host name of the pod with an ordinal.
unfoldable pub member : String → String → ℕ → String
member sts_name namespace i =
    concat
      (sts_name ∷ "-" ∷ decimal i ∷ "." ∷ sts_name ∷ "." ∷ namespace ∷ ".svc.cluster.local" ∷ [])

-- The rounds of the loop from `i` on, with so many left.
unfoldable pub members_from : (ℕ → String) → ℕ → ℕ → List String
members_from host i zero = []
members_from host i (suc left) = host i ∷ members_from host (i + 1) left

-- `make` panics at a negative length.
unfoldable pub galera_members : String → String → ℤ → Outcome (List String)
unfolding members_from member
galera_members sts_name namespace (pos n) = ok (members_from (member sts_name namespace) 0 n)
galera_members sts_name namespace (negsuc n) = panic

unfoldable pub galera_script : String → String → String
galera_script cluster_members sts_name = concat (
    "\n" ∷ "set -e\n" ∷ "ORDINAL=${POD_NAME##*-}\n" ∷ "SERVER_ID=$((100 + ORDINAL))\n"
    ∷ "GRASTATE_FILE=\"/var/lib/mysql/grastate.dat\"\n" ∷ "\n"
    ∷ "if [ \"$ORDINAL\" = \"0\" ] && [ ! -f \"$GRASTATE_FILE\" ]; then\n"
    ∷ "  WSREP_CLUSTER_ADDRESS=\"gcomm://\"\n" ∷ "else\n" ∷ "  WSREP_CLUSTER_ADDRESS=\"gcomm://"
    ∷ cluster_members ∷ "\"\n" ∷ "fi\n" ∷ "\n" ∷ "cat <<EOF > /db-config/galera.cnf\n"
    ∷ "[mysqld]\n" ∷ "server-id=${SERVER_ID}\n" ∷ "wsrep_on=ON\n"
    ∷ "wsrep_provider=/usr/lib/galera/libgalera_smm.so\n" ∷ "wsrep_cluster_name=" ∷ sts_name ∷ "\n"
    ∷ "wsrep_cluster_address=${WSREP_CLUSTER_ADDRESS}\n" ∷ "wsrep_node_name=${POD_NAME}\n"
    ∷ "wsrep_node_address=${POD_IP}\n" ∷ "wsrep_sst_method=rsync\n" ∷ "binlog_format=ROW\n"
    ∷ "default_storage_engine=InnoDB\n" ∷ "innodb_autoinc_lock_mode=2\n" ∷ "log_bin=mysql-bin\n"
    ∷ "gtid_strict_mode=ON\n" ∷ "log_slave_updates=ON\n" ∷ "EOF\n" ∷ [])

unfoldable pub build_galera_config_script : String → String → ℤ → Outcome String
unfolding galera_members join galera_script
build_galera_config_script sts_name namespace total_replicas =
    galera_members sts_name namespace total_replicas >>=? λ members.
    ok (galera_script (join members) sts_name)
