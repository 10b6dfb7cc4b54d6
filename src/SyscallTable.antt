-- ===== src/SyscallTable.antt =====
-- The names of `CASES_SYSCALL` in include/syscalls_list.h, in its order.
use my_dbg.Base.{List, [], ◌∷◌, ◌++◌, Text, codes}

abbrev names_from_accept : List Text
names_from_accept =
    codes "accept"
    ∷ codes "accept4"
    ∷ codes "access"
    ∷ codes "acct"
    ∷ codes "add"
    ∷ codes "adjtimex"
    ∷ codes "afs"
    ∷ codes "alarm"
    ∷ codes "arch"
    ∷ codes "bdflush"
    ∷ codes "bind"
    ∷ codes "bpf"
    ∷ codes "break"
    ∷ codes "brk"
    ∷ codes "capget"
    ∷ codes "capset"
    ∷ codes "chdir"
    ∷ codes "chmod"
    ∷ codes "chown"
    ∷ codes "chown32"
    ∷ codes "chroot"
    ∷ codes "clock"
    ∷ codes "clone"
    ∷ codes "close"
    ∷ codes "connect"
    ∷ codes "copy"
    ∷ codes "creat"
    ∷ codes "create"
    ∷ codes "delete"
    ∷ codes "dup"
    ∷ codes "dup2"
    ∷ codes "dup3"
    ∷ codes "epoll"
    ∷ codes "eventfd"
    ∷ codes "eventfd2"
    ∷ codes "execve"
    ∷ codes "execveat"
    ∷ codes "exit"
    ∷ codes "faccessat"
    ∷ codes "fadvise64"
    ∷ codes "fallocate"
    ∷ codes "fanotify"
    ∷ codes "fchdir"
    ∷ codes "fchmod"
    ∷ codes "fchmodat"
    ∷ codes "fchown"
    ∷ codes "fchown32"
    ∷ codes "fchownat"
    ∷ codes "fcntl"
    ∷ codes "fcntl64"
    ∷ codes "fdatasync"
    ∷ codes "fgetxattr"
    ∷ codes "finit"
    ∷ codes "flistxattr"
    ∷ codes "flock"
    ∷ codes "fork"
    ∷ codes "fremovexattr"
    ∷ codes "fsetxattr"
    ∷ codes "fstat"
    ∷ codes "fstat64"
    ∷ codes "fstatat64"
    ∷ codes "fstatfs"
    ∷ codes "fstatfs64"
    ∷ codes "fsync"
    ∷ codes "ftime"
    ∷ codes "ftruncate"
    ∷ codes "ftruncate64"
    ∷ codes "futex"
    ∷ codes "futimesat"
    ∷ codes "get"
    ∷ codes "getcpu"
    ∷ codes "getcwd"
    ∷ codes "getdents"
    ∷ codes "getdents64"
    ∷ codes "getegid"
    ∷ codes "getegid32"
    ∷ codes "geteuid"
    ∷ codes "geteuid32"
    ∷ codes "getgid"
    ∷ codes "getgid32"
    ∷ codes "getgroups"
    ∷ codes "getgroups32"
    ∷ codes "getitimer"
    ∷ codes "getpeername"
    ∷ codes "getpgid"
    ∷ codes "getpgrp"
    ∷ codes "getpid"
    ∷ codes "getpmsg"
    ∷ codes "getppid"
    ∷ codes "getpriority"
    ∷ codes "getrandom"
    ∷ codes "getresgid"
    ∷ codes "getresgid32"
    ∷ codes "getresuid"
    ∷ codes "getresuid32"
    ∷ codes "getrlimit"
    ∷ codes "getrusage"
    ∷ codes "getsid"
    ∷ codes "getsockname"
    ∷ codes "getsockopt"
    ∷ codes "gettid"
    ∷ codes "gettimeofday"
    ∷ codes "getuid"
    ∷ codes "getuid32"
    ∷ codes "getxattr"
    ∷ codes "gtty"
    ∷ codes "idle"
    ∷ codes "init"
    ∷ codes "inotify"
    ∷ codes "io"
    ∷ codes "ioctl"
    ∷ codes "ioperm"
    ∷ []

abbrev names_from_iopl : List Text
names_from_iopl =
    codes "iopl"
    ∷ codes "ioprio"
    ∷ codes "ipc"
    ∷ codes "kcmp"
    ∷ codes "kexec"
    ∷ codes "keyctl"
    ∷ codes "kill"
    ∷ codes "lchown"
    ∷ codes "lchown32"
    ∷ codes "lgetxattr"
    ∷ codes "link"
    ∷ codes "linkat"
    ∷ codes "listen"
    ∷ codes "listxattr"
    ∷ codes "llistxattr"
    ∷ codes "lock"
    ∷ codes "lookup"
    ∷ codes "lremovexattr"
    ∷ codes "lseek"
    ∷ codes "lsetxattr"
    ∷ codes "lstat"
    ∷ codes "lstat64"
    ∷ codes "madvise"
    ∷ codes "mbind"
    ∷ codes "membarrier"
    ∷ codes "memfd"
    ∷ codes "migrate"
    ∷ codes "mincore"
    ∷ codes "mkdir"
    ∷ codes "mkdirat"
    ∷ codes "mknod"
    ∷ codes "mknodat"
    ∷ codes "mlock"
    ∷ codes "mlock2"
    ∷ codes "mlockall"
    ∷ codes "mmap"
    ∷ codes "mmap2"
    ∷ codes "modify"
    ∷ codes "mount"
    ∷ codes "move"
    ∷ codes "mprotect"
    ∷ codes "mpx"
    ∷ codes "mq"
    ∷ codes "mremap"
    ∷ codes "msgctl"
    ∷ codes "msgget"
    ∷ codes "msgrcv"
    ∷ codes "msgsnd"
    ∷ codes "msync"
    ∷ codes "munlock"
    ∷ codes "munlockall"
    ∷ codes "munmap"
    ∷ codes "name"
    ∷ codes "nanosleep"
    ∷ codes "newfstatat"
    ∷ codes "nfsservctl"
    ∷ codes "nice"
    ∷ codes "oldfstat"
    ∷ codes "oldlstat"
    ∷ codes "oldolduname"
    ∷ codes "oldstat"
    ∷ codes "olduname"
    ∷ codes "open"
    ∷ codes "openat"
    ∷ codes "pause"
    ∷ codes "perf"
    ∷ codes "personality"
    ∷ codes "pipe"
    ∷ codes "pipe2"
    ∷ codes "pivot"
    ∷ codes "pkey"
    ∷ codes "poll"
    ∷ codes "ppoll"
    ∷ codes "prctl"
    ∷ codes "pread64"
    ∷ codes "preadv"
    ∷ codes "preadv2"
    ∷ codes "prlimit64"
    ∷ codes "process"
    ∷ codes "prof"
    ∷ codes "profil"
    ∷ codes "pselect6"
    ∷ codes "ptrace"
    ∷ codes "putpmsg"
    ∷ codes "pwrite64"
    ∷ codes "pwritev"
    ∷ codes "pwritev2"
    ∷ codes "query"
    ∷ codes "quotactl"
    ∷ codes "read"
    ∷ codes "readahead"
    ∷ codes "readdir"
    ∷ codes "readlink"
    ∷ codes "readlinkat"
    ∷ codes "readv"
    ∷ codes "reboot"
    ∷ codes "recvfrom"
    ∷ codes "recvmmsg"
    ∷ codes "recvmsg"
    ∷ codes "remap"
    ∷ codes "removexattr"
    ∷ codes "rename"
    ∷ codes "renameat"
    ∷ codes "renameat2"
    ∷ codes "request"
    ∷ codes "restart"
    ∷ codes "rmdir"
    ∷ codes "rt"
    ∷ codes "sched"
    ∷ codes "seccomp"
    ∷ codes "security"
    ∷ codes "select"
    ∷ []

abbrev names_from_semctl : List Text
names_from_semctl =
    codes "semctl"
    ∷ codes "semget"
    ∷ codes "semop"
    ∷ codes "semtimedop"
    ∷ codes "sendfile"
    ∷ codes "sendfile64"
    ∷ codes "sendmmsg"
    ∷ codes "sendmsg"
    ∷ codes "sendto"
    ∷ codes "set"
    ∷ codes "setdomainname"
    ∷ codes "setfsgid"
    ∷ codes "setfsgid32"
    ∷ codes "setfsuid"
    ∷ codes "setfsuid32"
    ∷ codes "setgid"
    ∷ codes "setgid32"
    ∷ codes "setgroups"
    ∷ codes "setgroups32"
    ∷ codes "sethostname"
    ∷ codes "setitimer"
    ∷ codes "setns"
    ∷ codes "setpgid"
    ∷ codes "setpriority"
    ∷ codes "setregid"
    ∷ codes "setregid32"
    ∷ codes "setresgid"
    ∷ codes "setresgid32"
    ∷ codes "setresuid"
    ∷ codes "setresuid32"
    ∷ codes "setreuid"
    ∷ codes "setreuid32"
    ∷ codes "setrlimit"
    ∷ codes "setsid"
    ∷ codes "setsockopt"
    ∷ codes "settimeofday"
    ∷ codes "setuid"
    ∷ codes "setuid32"
    ∷ codes "setxattr"
    ∷ codes "sgetmask"
    ∷ codes "shmat"
    ∷ codes "shmctl"
    ∷ codes "shmdt"
    ∷ codes "shmget"
    ∷ codes "shutdown"
    ∷ codes "sigaction"
    ∷ codes "sigaltstack"
    ∷ codes "signal"
    ∷ codes "signalfd"
    ∷ codes "signalfd4"
    ∷ codes "sigpending"
    ∷ codes "sigprocmask"
    ∷ codes "sigreturn"
    ∷ codes "sigsuspend"
    ∷ codes "socket"
    ∷ codes "socketcall"
    ∷ codes "socketpair"
    ∷ codes "splice"
    ∷ codes "ssetmask"
    ∷ codes "stat"
    ∷ codes "stat64"
    ∷ codes "statfs"
    ∷ codes "statfs64"
    ∷ codes "statx"
    ∷ codes "stime"
    ∷ codes "stty"
    ∷ codes "swapoff"
    ∷ codes "swapon"
    ∷ codes "symlink"
    ∷ codes "symlinkat"
    ∷ codes "sync"
    ∷ codes "syncfs"
    ∷ codes "sysfs"
    ∷ codes "sysinfo"
    ∷ codes "syslog"
    ∷ codes "tee"
    ∷ codes "tgkill"
    ∷ codes "time"
    ∷ codes "timer"
    ∷ codes "timerfd"
    ∷ codes "times"
    ∷ codes "tkill"
    ∷ codes "truncate"
    ∷ codes "truncate64"
    ∷ codes "tuxcall"
    ∷ codes "ugetrlimit"
    ∷ codes "ulimit"
    ∷ codes "umask"
    ∷ codes "umount"
    ∷ codes "umount2"
    ∷ codes "uname"
    ∷ codes "unlink"
    ∷ codes "unlinkat"
    ∷ codes "unshare"
    ∷ codes "uselib"
    ∷ codes "userfaultfd"
    ∷ codes "ustat"
    ∷ codes "utime"
    ∷ codes "utimensat"
    ∷ codes "utimes"
    ∷ codes "vfork"
    ∷ codes "vhangup"
    ∷ codes "vm86"
    ∷ codes "vm86old"
    ∷ codes "vmsplice"
    ∷ codes "vserver"
    ∷ codes "wait4"
    ∷ codes "waitid"
    ∷ codes "waitpid"
    ∷ codes "write"
    ∷ codes "writev"
    ∷ []

unfoldable pub syscall_names : List Text
syscall_names = names_from_accept ++ (names_from_iopl ++ (names_from_semctl))
